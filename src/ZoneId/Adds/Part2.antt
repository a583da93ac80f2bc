-- ===== src/ZoneId/Adds/Part2.antt =====
-- src/common/zone_id.c, the rows `add(id, name)` of `zone_short_name_map_create`: the rows 124 to 273.
use Prim.Native.Nat.{ℕ}
use Prim.Native.String.{String}
use mathlib.Core.List.{List, [], ◌∷◌}

unfoldable pub added_part2 : List (ℕ × String)
added_part2 =
    (124, "templeveeshan")
    ∷ (125, "sirens")
    ∷ (126, "mischiefplane")
    ∷ (127, "growthplane")
    ∷ (128, "sleeper")
    ∷ (129, "thurgadinb")
    ∷ (130, "erudsxing2")
    ∷ (150, "shadowhaven")
    ∷ (151, "bazaar")
    ∷ (151, "bazaar")
    ∷ (152, "nexus")
    ∷ (153, "echo")
    ∷ (154, "acrylia")
    ∷ (155, "sharvahl")
    ∷ (156, "paludal")
    ∷ (157, "fungusgrove")
    ∷ (158, "vexthal")
    ∷ (159, "sseru")
    ∷ (160, "katta")
    ∷ (161, "netherbian")
    ∷ (162, "ssratemple")
    ∷ (163, "griegsend")
    ∷ (164, "thedeep")
    ∷ (165, "shadeweaver")
    ∷ (166, "hollowshade")
    ∷ (167, "grimling")
    ∷ (168, "mseru")
    ∷ (169, "letalis")
    ∷ (170, "twilight")
    ∷ (171, "thegrey")
    ∷ (172, "tenebrous")
    ∷ (173, "maiden")
    ∷ (174, "dawnshroud")
    ∷ (175, "scarlet")
    ∷ (176, "umbral")
    ∷ (179, "akheva")
    ∷ (180, "arena2")
    ∷ (181, "jaggedpine")
    ∷ (182, "nedaria")
    ∷ (183, "tutorial")
    ∷ (184, "load")
    ∷ (185, "load2")
    ∷ (186, "hateplaneb")
    ∷ (187, "shadowrest")
    ∷ (188, "tutoriala")
    ∷ (189, "tutorialb")
    ∷ (190, "clz")
    ∷ (200, "codecay")
    ∷ (201, "pojustice")
    ∷ (202, "poknowledge")
    ∷ (203, "potranquility")
    ∷ (204, "ponightmare")
    ∷ (205, "podisease")
    ∷ (206, "poinnovation")
    ∷ (207, "potorment")
    ∷ (208, "povalor")
    ∷ (209, "bothunder")
    ∷ (210, "postorms")
    ∷ (211, "hohonora")
    ∷ (212, "solrotower")
    ∷ (213, "powar")
    ∷ (214, "potactics")
    ∷ (215, "poair")
    ∷ (216, "powater")
    ∷ (217, "pofire")
    ∷ (218, "poeartha")
    ∷ (219, "potimea")
    ∷ (220, "hohonorb")
    ∷ (221, "nightmareb")
    ∷ (222, "poearthb")
    ∷ (223, "potimeb")
    ∷ (224, "gunthak")
    ∷ (225, "dulak")
    ∷ (226, "torgiran")
    ∷ (227, "nadox")
    ∷ (228, "hatesfury")
    ∷ (229, "guka")
    ∷ (230, "ruja")
    ∷ (231, "taka")
    ∷ (232, "mira")
    ∷ (233, "mmca")
    ∷ (234, "gukb")
    ∷ (235, "rujb")
    ∷ (236, "takb")
    ∷ (237, "mirb")
    ∷ (238, "mmcb")
    ∷ (239, "gukc")
    ∷ (240, "rujc")
    ∷ (241, "takc")
    ∷ (242, "mirc")
    ∷ (243, "mmcc")
    ∷ (244, "gukd")
    ∷ (245, "rujd")
    ∷ (246, "takd")
    ∷ (247, "mird")
    ∷ (248, "mmcd")
    ∷ (249, "guke")
    ∷ (250, "ruje")
    ∷ (251, "take")
    ∷ (252, "mire")
    ∷ (253, "mmce")
    ∷ (254, "gukf")
    ∷ (255, "rujf")
    ∷ (256, "takf")
    ∷ (257, "mirf")
    ∷ (258, "mmcf")
    ∷ (259, "gukg")
    ∷ (260, "rujg")
    ∷ (261, "takg")
    ∷ (262, "mirg")
    ∷ (263, "mmcg")
    ∷ (264, "gukh")
    ∷ (265, "rujh")
    ∷ (266, "takh")
    ∷ (267, "mirh")
    ∷ (268, "mmch")
    ∷ (269, "ruji")
    ∷ (270, "taki")
    ∷ (271, "miri")
    ∷ (272, "mmci")
    ∷ (273, "rujj")
    ∷ []

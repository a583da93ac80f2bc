-- ===== src/ZoneId/LongNames/Part2.antt =====
-- src/common/zone_id.c, the cases of `zone_long_name_by_id`: the rows 125 to 275.
use Prim.Native.Nat.{ℕ}
use Prim.Native.String.{String}
use mathlib.Core.List.{List, [], ◌∷◌}

unfoldable pub long_names_part2 : List (ℕ × String)
long_names_part2 =
    (125, "Siren's Grotto")
    ∷ (126, "The Plane of Mischief")
    ∷ (127, "The Plane of Growth")
    ∷ (128, "The Sleeper's Tomb")
    ∷ (129, "Icewell Keep")
    ∷ (130, "Marauders Mire")
    ∷ (150, "Shadow Haven")
    ∷ (151, "The Bazaar")
    ∷ (152, "Nexus")
    ∷ (153, "The Echo Caverns")
    ∷ (154, "The Acrylia Caverns")
    ∷ (155, "The City of Shar Vahl")
    ∷ (156, "The Paludal Caverns")
    ∷ (157, "The Fungus Grove")
    ∷ (158, "Vex Thal")
    ∷ (159, "Sanctus Seru")
    ∷ (160, "Katta Castellum")
    ∷ (161, "Netherbian Lair")
    ∷ (162, "Ssraeshza Temple")
    ∷ (163, "Grieg's End")
    ∷ (164, "The Deep")
    ∷ (165, "Shadeweaver's Thicket")
    ∷ (166, "Hollowshade Moor")
    ∷ (167, "Grimling Forest")
    ∷ (168, "Marus Seru")
    ∷ (169, "Mons Letalis")
    ∷ (170, "The Twilight Sea")
    ∷ (171, "The Grey")
    ∷ (172, "The Tenebrous Mountains")
    ∷ (173, "The Maiden's Eye")
    ∷ (174, "The Dawnshroud Peaks")
    ∷ (175, "The Scarlet Desert")
    ∷ (176, "The Umbral Plains")
    ∷ (179, "The Akheva Ruins")
    ∷ (180, "The Arena Two")
    ∷ (181, "The Jaggedpine Forest")
    ∷ (182, "Nedaria's Landing")
    ∷ (183, "EverQuest Tutorial")
    ∷ (184, "Loading Zone")
    ∷ (185, "New Loading Zone")
    ∷ (186, "The Plane of Hate")
    ∷ (187, "Shadowrest")
    ∷ (188, "The Mines of Gloomingdeep")
    ∷ (189, "The Mines of Gloomingdeep")
    ∷ (190, "Loading")
    ∷ (200, "The Crypt of Decay")
    ∷ (201, "The Plane of Justice")
    ∷ (202, "The Plane of Knowledge")
    ∷ (203, "The Plane of Tranquility")
    ∷ (204, "The Plane of Nightmares")
    ∷ (205, "The Plane of Disease")
    ∷ (206, "The Plane of Innovation")
    ∷ (207, "Torment, the Plane of Pain")
    ∷ (208, "The Plane of Valor")
    ∷ (209, "Bastion of Thunder")
    ∷ (210, "The Plane of Storms")
    ∷ (211, "The Halls of Honor")
    ∷ (212, "The Tower of Solusek Ro")
    ∷ (213, "Plane of War")
    ∷ (214, "Drunder, the Fortress of Zek")
    ∷ (215, "The Plane of Air")
    ∷ (216, "The Plane of Water")
    ∷ (217, "The Plane of Fire")
    ∷ (218, "The Plane of Earth")
    ∷ (219, "The Plane of Time A")
    ∷ (220, "The Temple of Marr")
    ∷ (221, "The Lair of Terris Thule")
    ∷ (222, "The Plane of Earth")
    ∷ (223, "The Plane of Time B")
    ∷ (224, "The Gulf of Gunthak")
    ∷ (225, "Dulak's Harbor")
    ∷ (226, "The Torgiran Mines")
    ∷ (227, "The Crypt of Nadox")
    ∷ (228, "Hate's Fury")
    ∷ (229, "Deepest Guk: Cauldron of Lost Souls")
    ∷ (230, "The Rujarkian Hills: Bloodied Quarries")
    ∷ (231, "Takish-Hiz: Sunken Library")
    ∷ (232, "Miragul's Menagerie: Silent Gallery")
    ∷ (233, "Mistmoore's Catacombs: Forlorn Caverns")
    ∷ (234, "The Drowning Crypt")
    ∷ (235, "The Rujarkian Hills: Halls of War")
    ∷ (236, "Takish-Hiz: Shifting Tower")
    ∷ (237, "Miragul's Menagerie: Frozen Nightmare")
    ∷ (238, "Mistmoore's Catacombs: Dreary Grotto")
    ∷ (239, "Deepest Guk: Ancient Aqueducts")
    ∷ (240, "The Rujarkian Hills: Wind Bridges")
    ∷ (241, "Takish-Hiz: Fading Temple")
    ∷ (242, "The Spider Den")
    ∷ (243, "Mistmoore's Catacombs: Struggles within the Progeny")
    ∷ (244, "The Mushroom Grove")
    ∷ (245, "The Rujarkian Hills: Prison Break")
    ∷ (246, "Takish-Hiz: Royal Observatory")
    ∷ (247, "Miragul's Menagerie: Hushed Banquet")
    ∷ (248, "Mistmoore's Catacombs: Chambers of Eternal Affliction")
    ∷ (249, "Deepest Guk: The Curse Reborn")
    ∷ (250, "The Rujarkian Hills: Drudge Hollows")
    ∷ (251, "Takish-Hiz: River of Recollection")
    ∷ (252, "The Frosted Halls")
    ∷ (253, "Mistmoore's Catacombs: Sepulcher of the Damned")
    ∷ (254, "Deepest Guk: Chapel of the Witnesses")
    ∷ (255, "The Rujarkian Hills: Fortified Lair of the Taskmasters")
    ∷ (256, "Takish-Hiz: Sandfall Corridors")
    ∷ (257, "The Forgotten Wastes")
    ∷ (258, "Mistmoore's Catacombs: Scion Lair of Fury")
    ∷ (259, "The Root Garden")
    ∷ (260, "The Rujarkian Hills: Hidden Vale of Deceit")
    ∷ (261, "Takish-Hiz: Balancing Chamber")
    ∷ (262, "Miragul's Menagerie: Heart of the Menagerie")
    ∷ (263, "Mistmoore's Catacombs: Cesspits of Putrescence")
    ∷ (264, "Deepest Guk: Accursed Sanctuary")
    ∷ (265, "The Rujarkian Hills: Blazing Forge")
    ∷ (266, "Takish-Hiz: Sweeping Tides")
    ∷ (267, "The Morbid Laboratory")
    ∷ (268, "Mistmoore's Catacombs: Aisles of Blood")
    ∷ (269, "The Rujarkian Hills: Arena of Chance")
    ∷ (270, "Takish-Hiz: Antiquated Palace")
    ∷ (271, "The Theater of Imprisoned Horror")
    ∷ (272, "Mistmoore's Catacombs: Halls of Sanguinary Rites")
    ∷ (273, "The Rujarkian Hills: Barracks of War")
    ∷ (274, "Takish-Hiz: Prismatic Corridors")
    ∷ (275, "Miragul's Menagerie: Grand Library")
    ∷ []

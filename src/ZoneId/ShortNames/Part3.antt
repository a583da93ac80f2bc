-- ===== src/ZoneId/ShortNames/Part3.antt =====
-- src/common/zone_id.c, the cases of `zone_short_name_by_id`: the rows 276 to 411.
use Prim.Native.Nat.{ℕ}
use Prim.Native.String.{String}
use mathlib.Core.List.{List, [], ◌∷◌}

unfoldable pub short_names_part3 : List (ℕ × String)
short_names_part3 =
    (276, "mmcj")
    ∷ (277, "chardokb")
    ∷ (278, "soldungc")
    ∷ (279, "abysmal")
    ∷ (280, "natimbi")
    ∷ (281, "qinimi")
    ∷ (282, "riwwi")
    ∷ (283, "barindu")
    ∷ (284, "ferubi")
    ∷ (285, "snpool")
    ∷ (286, "snlair")
    ∷ (287, "snplant")
    ∷ (288, "sncrematory")
    ∷ (289, "tipt")
    ∷ (290, "vxed")
    ∷ (291, "yxtta")
    ∷ (292, "uqua")
    ∷ (293, "kodtaz")
    ∷ (294, "ikkinz")
    ∷ (295, "qvic")
    ∷ (296, "inktuta")
    ∷ (297, "txevu")
    ∷ (298, "tacvi")
    ∷ (299, "qvicb")
    ∷ (300, "wallofslaughter")
    ∷ (301, "bloodfields")
    ∷ (302, "draniksscar")
    ∷ (303, "causeway")
    ∷ (304, "chambersa")
    ∷ (305, "chambersb")
    ∷ (306, "chambersc")
    ∷ (307, "chambersd")
    ∷ (308, "chamberse")
    ∷ (309, "chambersf")
    ∷ (316, "provinggrounds")
    ∷ (317, "anguish")
    ∷ (318, "dranikhollowsa")
    ∷ (319, "dranikhollowsb")
    ∷ (320, "dranikhollowsc")
    ∷ (328, "dranikcatacombsa")
    ∷ (329, "dranikcatacombsb")
    ∷ (330, "dranikcatacombsc")
    ∷ (331, "draniksewersa")
    ∷ (332, "draniksewersb")
    ∷ (333, "draniksewersc")
    ∷ (334, "riftseekers")
    ∷ (335, "harbingers")
    ∷ (336, "dranik")
    ∷ (337, "broodlands")
    ∷ (338, "stillmoona")
    ∷ (339, "stillmoonb")
    ∷ (340, "thundercrest")
    ∷ (341, "delvea")
    ∷ (342, "delveb")
    ∷ (343, "thenest")
    ∷ (344, "guildlobby")
    ∷ (345, "guildhall")
    ∷ (346, "barter")
    ∷ (347, "illsalin")
    ∷ (348, "illsalina")
    ∷ (349, "illsalinb")
    ∷ (350, "illsalinc")
    ∷ (351, "dreadspire")
    ∷ (354, "drachnidhive")
    ∷ (355, "drachnidhivea")
    ∷ (356, "drachnidhiveb")
    ∷ (357, "drachnidhivec")
    ∷ (358, "westkorlach")
    ∷ (359, "westkorlacha")
    ∷ (360, "westkorlachb")
    ∷ (361, "westkorlachc")
    ∷ (362, "eastkorlach")
    ∷ (363, "eastkorlacha")
    ∷ (364, "shadowspine")
    ∷ (365, "corathus")
    ∷ (366, "corathusa")
    ∷ (367, "corathusb")
    ∷ (368, "nektulosa")
    ∷ (369, "arcstone")
    ∷ (370, "relic")
    ∷ (371, "skylance")
    ∷ (372, "devastation")
    ∷ (373, "devastationa")
    ∷ (374, "rage")
    ∷ (375, "ragea")
    ∷ (376, "takishruins")
    ∷ (377, "takishruinsa")
    ∷ (378, "elddar")
    ∷ (379, "elddara")
    ∷ (380, "theater")
    ∷ (381, "theatera")
    ∷ (382, "freeporteast")
    ∷ (383, "freeportwest")
    ∷ (384, "freeportsewers")
    ∷ (385, "freeportacademy")
    ∷ (386, "freeporttemple")
    ∷ (387, "freeportmilitia")
    ∷ (388, "freeportarena")
    ∷ (389, "freeportcityhall")
    ∷ (390, "freeporttheater")
    ∷ (391, "freeporthall")
    ∷ (392, "northro")
    ∷ (393, "southro")
    ∷ (394, "crescent")
    ∷ (395, "moors")
    ∷ (396, "stonehive")
    ∷ (397, "mesa")
    ∷ (398, "roost")
    ∷ (399, "steppes")
    ∷ (400, "icefall")
    ∷ (401, "valdeholm")
    ∷ (402, "frostcrypt")
    ∷ (403, "sunderock")
    ∷ (404, "vergalid")
    ∷ (405, "direwind")
    ∷ (406, "ashengate")
    ∷ (407, "highpasshold")
    ∷ (408, "commonlands")
    ∷ (409, "oceanoftears")
    ∷ (410, "kithforest")
    ∷ (411, "befallenb")
    ∷ []

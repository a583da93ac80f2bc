-- ===== src/ZoneId/LongNames/Part3.antt =====
-- src/common/zone_id.c, the cases of `zone_long_name_by_id`: the rows 276 to 411.
use Prim.Native.Nat.{ℕ}
use Prim.Native.String.{String}
use mathlib.Core.List.{List, [], ◌∷◌}

unfoldable pub long_names_part3 : List (ℕ × String)
long_names_part3 =
    (276, "Mistmoore's Catacombs: Infernal Sanctuary")
    ∷ (277, "Chardok: The Halls of Betrayal")
    ∷ (278, "The Caverns of Exile")
    ∷ (279, "The Abysmal Sea")
    ∷ (280, "Natimbi, the Broken Shores")
    ∷ (281, "Qinimi, Court of Nihilia")
    ∷ (282, "Riwwi, Coliseum of Games")
    ∷ (283, "Barindu, Hanging Gardens")
    ∷ (284, "Ferubi, Forgotten Temple of Taelosia")
    ∷ (285, "Sewers of Nihilia, Pool of Sludg")
    ∷ (286, "Sewers of Nihilia, Lair of Trapp")
    ∷ (287, "Sewers of Nihilia, Purifying Pla")
    ∷ (288, "Sewers of Nihilia, Emanating Cre")
    ∷ (289, "Tipt, Treacherous Crags")
    ∷ (290, "Vxed, the Crumbling Caverns")
    ∷ (291, "Yxtta, Pulpit of Exiles")
    ∷ (292, "Uqua, the Ocean God Chantry")
    ∷ (293, "Kod'Taz, Broken Trial Grounds")
    ∷ (294, "Ikkinz, Chambers of Transcendence")
    ∷ (295, "Qvic, Prayer Grounds of Calling")
    ∷ (296, "Inktu'Ta, the Unmasked Chapel")
    ∷ (297, "Txevu, Lair of the Elite")
    ∷ (298, "Tacvi, The Broken Temple")
    ∷ (299, "Qvic, the Hidden Vault")
    ∷ (300, "Wall of Slaughter")
    ∷ (301, "The Bloodfields")
    ∷ (302, "Dranik's Scar")
    ∷ (303, "Nobles' Causeway")
    ∷ (304, "Muramite Proving Grounds A")
    ∷ (305, "Muramite Proving Grounds B")
    ∷ (306, "Muramite Proving Grounds C")
    ∷ (307, "Muramite Proving Grounds D")
    ∷ (308, "Muramite Proving Grounds E")
    ∷ (309, "Muramite Proving Grounds F")
    ∷ (316, "Muramite Proving Grounds G")
    ∷ (317, "Anguish, the Fallen Palace")
    ∷ (318, "Dranik's Hollows A")
    ∷ (319, "Dranik's Hollows B")
    ∷ (320, "Dranik's Hollows C")
    ∷ (328, "Catacombs of Dranik A")
    ∷ (329, "Catacombs of Dranik B")
    ∷ (330, "Catacombs of Dranik C")
    ∷ (331, "Sewers of Dranik A")
    ∷ (332, "Sewers of Dranik B")
    ∷ (333, "Sewers of Dranik C")
    ∷ (334, "Riftseekers' Sanctum")
    ∷ (335, "Harbinger's Spire")
    ∷ (336, "The Ruined City of Dranik")
    ∷ (337, "The Broodlands")
    ∷ (338, "Stillmoon Temple")
    ∷ (339, "The Ascent")
    ∷ (340, "Thundercrest Isles")
    ∷ (341, "Lavaspinner's Lair")
    ∷ (342, "Tirranun's Delve")
    ∷ (343, "The Nest")
    ∷ (344, "Guild Lobby")
    ∷ (345, "Guild Hall")
    ∷ (346, "The Barter Hall")
    ∷ (347, "Ruins of Illsalin")
    ∷ (348, "Illsalin Marketplace")
    ∷ (349, "Temple of Korlach")
    ∷ (350, "The Nargil Pits")
    ∷ (351, "Dreadspire Keep")
    ∷ (354, "The Hive")
    ∷ (355, "The Hatchery")
    ∷ (356, "The Cocoons")
    ∷ (357, "Queen Sendaii`s Lair")
    ∷ (358, "Stoneroot Falls")
    ∷ (359, "Prince's Manor")
    ∷ (360, "Caverns of the Lost")
    ∷ (361, "Lair of the Korlach")
    ∷ (362, "The Undershore")
    ∷ (363, "Snarlstone Dens")
    ∷ (364, "Shadow Spine")
    ∷ (365, "Corathus Creep")
    ∷ (366, "Sporali Caverns")
    ∷ (367, "The Corathus Mines")
    ∷ (368, "Shadowed Grove")
    ∷ (369, "Arcstone, Isle of Spirits")
    ∷ (370, "Relic, the Artifact City")
    ∷ (371, "Skylance")
    ∷ (372, "The Devastation")
    ∷ (373, "The Seething Wall")
    ∷ (374, "Sverag, Stronghold of Rage")
    ∷ (375, "Razorthorn, Tower of Sullon Zek")
    ∷ (376, "Ruins of Takish-Hiz")
    ∷ (377, "The Root of Ro")
    ∷ (378, "The Elddar Forest")
    ∷ (379, "Tunare's Shrine")
    ∷ (380, "Theater of Blood")
    ∷ (381, "Deathknell, Tower of Dissonance")
    ∷ (382, "East Freeport")
    ∷ (383, "West Freeport")
    ∷ (384, "Freeport Sewers")
    ∷ (385, "Academy of Arcane Sciences")
    ∷ (386, "Temple of Marr")
    ∷ (387, "Freeport Militia House: My Precious")
    ∷ (388, "Arena")
    ∷ (389, "City Hall")
    ∷ (390, "Theater of the Tranquil")
    ∷ (391, "Hall of Truth: Bounty")
    ∷ (392, "North Desert of Ro")
    ∷ (393, "South Desert of Ro")
    ∷ (394, "Crescent Reach")
    ∷ (395, "Blightfire Moors")
    ∷ (396, "Stone Hive")
    ∷ (397, "Goru`kar Mesa")
    ∷ (398, "Blackfeather Roost")
    ∷ (399, "The Steppes")
    ∷ (400, "Icefall Glacier")
    ∷ (401, "Valdeholm")
    ∷ (402, "Frostcrypt, Throne of the Shade King")
    ∷ (403, "Sunderock Springs")
    ∷ (404, "Vergalid Mines")
    ∷ (405, "Direwind Cliffs")
    ∷ (406, "Ashengate, Reliquary of the Scale")
    ∷ (407, "Highpass Hold")
    ∷ (408, "The Commonlands")
    ∷ (409, "The Ocean of Tears")
    ∷ (410, "Kithicor Forest")
    ∷ (411, "Befallen")
    ∷ []

-- ===== src/ZoneId/LongNames/Part1.antt =====
-- src/common/zone_id.c, the cases of `zone_long_name_by_id`: the rows 1 to 124.
use Prim.Native.Nat.{ℕ}
use Prim.Native.String.{String}
use mathlib.Core.List.{List, [], ◌∷◌}

unfoldable pub long_names_part1 : List (ℕ × String)
long_names_part1 =
    (1, "South Qeynos")
    ∷ (2, "North Qeynos")
    ∷ (3, "The Surefall Glade")
    ∷ (4, "The Qeynos Hills")
    ∷ (5, "Highpass Hold")
    ∷ (6, "High Keep")
    ∷ (8, "North Freeport")
    ∷ (9, "West Freeport")
    ∷ (10, "East Freeport")
    ∷ (11, "The Liberated Citadel of Runnyeye")
    ∷ (12, "The Western Plains of Karana")
    ∷ (13, "The Northern Plains of Karana")
    ∷ (14, "The Southern Plains of Karana")
    ∷ (15, "Eastern Plains of Karana")
    ∷ (16, "Gorge of King Xorbb")
    ∷ (17, "Blackburrow")
    ∷ (18, "The Lair of the Splitpaw")
    ∷ (19, "Rivervale")
    ∷ (20, "Kithicor Forest")
    ∷ (21, "West Commonlands")
    ∷ (22, "East Commonlands")
    ∷ (23, "The Erudin Palace")
    ∷ (24, "Erudin")
    ∷ (25, "The Nektulos Forest")
    ∷ (26, "Sunset Home")
    ∷ (27, "The Lavastorm Mountains")
    ∷ (28, "Nektropos")
    ∷ (29, "Halas")
    ∷ (30, "Everfrost Peaks")
    ∷ (31, "Solusek's Eye")
    ∷ (32, "Nagafen's Lair")
    ∷ (33, "Misty Thicket")
    ∷ (34, "Northern Desert of Ro")
    ∷ (35, "Southern Desert of Ro")
    ∷ (36, "Befallen")
    ∷ (37, "Oasis of Marr")
    ∷ (38, "Toxxulia Forest")
    ∷ (39, "The Hole")
    ∷ (40, "Neriak - Foreign Quarter")
    ∷ (41, "Neriak - Commons")
    ∷ (42, "Neriak - 3rd Gate")
    ∷ (43, "Neriak Palace")
    ∷ (44, "Najena")
    ∷ (45, "The Qeynos Aqueduct System")
    ∷ (46, "Innothule Swamp")
    ∷ (47, "The Feerrott")
    ∷ (48, "Accursed Temple of CazicThule")
    ∷ (49, "Oggok")
    ∷ (50, "The Rathe Mountains")
    ∷ (51, "Lake Rathetear")
    ∷ (52, "Grobb")
    ∷ (53, "Aviak Village")
    ∷ (54, "The Greater Faydark")
    ∷ (55, "Ak'Anon")
    ∷ (56, "Steamfont Mountains")
    ∷ (57, "The Lesser Faydark")
    ∷ (58, "Crushbone")
    ∷ (59, "The Castle of Mistmoore")
    ∷ (60, "South Kaladim")
    ∷ (61, "Northern Felwithe")
    ∷ (62, "Southern Felwithe")
    ∷ (63, "The Estate of Unrest")
    ∷ (64, "Kedge Keep")
    ∷ (65, "The City of Guk")
    ∷ (66, "The Ruins of Old Guk")
    ∷ (67, "North Kaladim")
    ∷ (68, "Butcherblock Mountains")
    ∷ (69, "Ocean of Tears")
    ∷ (70, "Dagnor's Cauldron")
    ∷ (71, "The Plane of Sky")
    ∷ (72, "The Plane of Fear")
    ∷ (73, "The Permafrost Caverns")
    ∷ (74, "Kerra Isle")
    ∷ (75, "Paineel")
    ∷ (76, "Plane of Hate")
    ∷ (77, "The Arena")
    ∷ (78, "The Field of Bone")
    ∷ (79, "The Warsliks Woods")
    ∷ (80, "The Temple of Solusek Ro")
    ∷ (81, "The Temple of Droga")
    ∷ (82, "Cabilis West")
    ∷ (83, "The Swamp of No Hope")
    ∷ (84, "Firiona Vie")
    ∷ (85, "Lake of Ill Omen")
    ∷ (86, "The Dreadlands")
    ∷ (87, "The Burning Wood")
    ∷ (88, "Kaesora")
    ∷ (89, "The Ruins of Sebilis")
    ∷ (90, "The City of Mist")
    ∷ (91, "The Skyfire Mountains")
    ∷ (92, "Frontier Mountains")
    ∷ (93, "The Overthere")
    ∷ (94, "The Emerald Jungle")
    ∷ (95, "Trakanon's Teeth")
    ∷ (96, "Timorous Deep")
    ∷ (97, "Kurn's Tower")
    ∷ (98, "Erud's Crossing")
    ∷ (100, "The Stonebrunt Mountains")
    ∷ (101, "The Warrens")
    ∷ (102, "Karnor's Castle")
    ∷ (103, "Chardok")
    ∷ (104, "The Crypt of Dalnir")
    ∷ (105, "The Howling Stones")
    ∷ (106, "Cabilis East")
    ∷ (107, "The Mines of Nurga")
    ∷ (108, "Veeshan's Peak")
    ∷ (109, "Veksar")
    ∷ (110, "The Iceclad Ocean")
    ∷ (111, "The Tower of Frozen Shadow")
    ∷ (112, "Velketor's Labyrinth")
    ∷ (113, "Kael Drakkel")
    ∷ (114, "Skyshrine")
    ∷ (115, "The City of Thurgadin")
    ∷ (116, "Eastern Wastes")
    ∷ (117, "Cobaltscar")
    ∷ (118, "The Great Divide")
    ∷ (119, "The Wakening Land")
    ∷ (120, "The Western Wastes")
    ∷ (121, "The Crystal Caverns")
    ∷ (123, "Dragon Necropolis")
    ∷ (124, "The Temple of Veeshan")
    ∷ []

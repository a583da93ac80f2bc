-- ===== src/ZoneId/LongNames/Part4.antt =====
-- src/common/zone_id.c, the cases of `zone_long_name_by_id`: the rows 412 to 999.
use Prim.Native.Nat.{ℕ}
use Prim.Native.String.{String}
use mathlib.Core.List.{List, [], ◌∷◌}

unfoldable pub long_names_part4 : List (ℕ × String)
long_names_part4 =
    (412, "HighKeep")
    ∷ (413, "The Innothule Swamp")
    ∷ (414, "Toxxulia Forest")
    ∷ (415, "The Misty Thicket")
    ∷ (416, "Katta Castrum")
    ∷ (417, "Thalassius, the Coral Keep")
    ∷ (418, "Jewel of Atiiki")
    ∷ (419, "Zhisza, the Shissar Sanctuary")
    ∷ (420, "Silyssar, New Chelsith")
    ∷ (421, "Solteris, the Throne of Ro")
    ∷ (422, "Barren Coast")
    ∷ (423, "The Buried Sea")
    ∷ (424, "Jardel's Hook")
    ∷ (425, "Monkey Rock")
    ∷ (426, "Suncrest Isle")
    ∷ (427, "Deadbone Reef")
    ∷ (428, "Blacksail Folly")
    ∷ (429, "Maiden's Grave")
    ∷ (430, "Redfeather Isle")
    ∷ (431, "The Open Sea")
    ∷ (432, "The Open Sea")
    ∷ (433, "The Open Sea")
    ∷ (434, "The Open Sea")
    ∷ (435, "The Open Sea")
    ∷ (436, "Fortress Mechanotus")
    ∷ (437, "Meldrath's Majestic Mansion")
    ∷ (438, "The Steam Factory")
    ∷ (439, "S.H.I.P. Workshop")
    ∷ (440, "Gyrospire Beza")
    ∷ (441, "Gyrospire Zeka")
    ∷ (442, "Dragonscale Hills")
    ∷ (443, "Loping Plains")
    ∷ (444, "Hills of Shade")
    ∷ (445, "Bloodmoon Keep")
    ∷ (446, "Crystallos, Lair of the Awakened")
    ∷ (447, "The Mechamatic Guardian")
    ∷ (448, "The Steamfont Mountains")
    ∷ (449, "Crypt of Shade")
    ∷ (451, "Deepscar's Den")
    ∷ (452, "Field of Scale")
    ∷ (453, "Kaesora Library")
    ∷ (454, "Kaesora Hatchery")
    ∷ (455, "Kurn's Tower")
    ∷ (456, "Bloody Kithicor")
    ∷ (457, "Old Commonlands")
    ∷ (458, "Highpass Hold")
    ∷ (459, "The Void A")
    ∷ (460, "The Void B")
    ∷ (461, "The Void C")
    ∷ (462, "The Void D")
    ∷ (463, "The Void E")
    ∷ (464, "The Void F")
    ∷ (465, "The Void G")
    ∷ (466, "Oceangreen Hills")
    ∷ (467, "Oceangreen Village")
    ∷ (468, "BlackBurrow")
    ∷ (469, "Temple of Bertoxxulous")
    ∷ (470, "Korafax, Home of the Riders")
    ∷ (471, "Citadel of the Worldslayer")
    ∷ (472, "Old Bloodfields")
    ∷ (473, "The Precipice of War")
    ∷ (474, "City of Dranik")
    ∷ (475, "Toskirakk")
    ∷ (476, "Korascian Warrens")
    ∷ (477, "Rathe Council Chamber")
    ∷ (480, "Brell's Rest")
    ∷ (481, "Fungal Forest")
    ∷ (482, "The Underquarry")
    ∷ (483, "The Cooling Chamber")
    ∷ (484, "Kernagir, the Shining City")
    ∷ (485, "Arthicrex")
    ∷ (486, "The Foundation")
    ∷ (487, "Lichen Creep")
    ∷ (488, "Pellucid Grotto")
    ∷ (489, "Volska's Husk")
    ∷ (490, "Brell's Temple")
    ∷ (491, "The Convorteum")
    ∷ (492, "Brell's Arena")
    ∷ (493, "Wedding Chapel")
    ∷ (494, "Wedding Chapel")
    ∷ (495, "Lair of the Risen")
    ∷ (700, "The Feerrott")
    ∷ (701, "House of Thule")
    ∷ (702, "House of Thule, Upper Floors")
    ∷ (703, "The Grounds")
    ∷ (704, "The Library")
    ∷ (705, "The Well")
    ∷ (706, "Erudin Burning")
    ∷ (707, "Morell's Castle")
    ∷ (708, "Sanctum Somnium")
    ∷ (709, "Al'Kabor's Nightmare")
    ∷ (710, "Miragul's Nightmare")
    ∷ (711, "Fear Itself")
    ∷ (712, "Sunrise Hills")
    ∷ (724, "Argath, Bastion of Illdaera")
    ∷ (725, "Valley of Lunanyn")
    ∷ (726, "Sarith, City of Tides")
    ∷ (727, "Rubak Oseka, Temple of the Sea")
    ∷ (728, "Beasts' Domain")
    ∷ (729, "The Resplendent Temple")
    ∷ (730, "Pillars of Alra")
    ∷ (731, "Windsong Sanctuary")
    ∷ (732, "Erillion, City of Bronze")
    ∷ (733, "Sepulcher of Order")
    ∷ (734, "Sepulcher East")
    ∷ (735, "Sepulcher West")
    ∷ (752, "Shard's Landing")
    ∷ (753, "Valley of King Xorbb")
    ∷ (754, "Kael Drakkel: The King's Madness")
    ∷ (755, "East Wastes: Zeixshi-Kar's Awakening")
    ∷ (756, "The Crystal Caverns: Fragment of Fear")
    ∷ (757, "The Breeding Grounds")
    ∷ (758, "Evantil, the Vile Oak")
    ∷ (759, "Grelleth's Palace, the Chateau of Filth")
    ∷ (760, "Chapterhouse of the Fallen")
    ∷ (996, "Art Testing Domain")
    ∷ (998, "The Forgotten Halls")
    ∷ (999, "Designer Apprentice")
    ∷ []

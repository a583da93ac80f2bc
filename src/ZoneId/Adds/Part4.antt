-- ===== src/ZoneId/Adds/Part4.antt =====
-- src/common/zone_id.c, the rows `add(id, name)` of `zone_short_name_map_create`: the rows 410 to 999.
use Prim.Native.Nat.{ℕ}
use Prim.Native.String.{String}
use mathlib.Core.List.{List, [], ◌∷◌}

unfoldable pub added_part4 : List (ℕ × String)
added_part4 =
    (410, "kithforest")
    ∷ (411, "befallenb")
    ∷ (412, "highpasskeep")
    ∷ (413, "innothuleb")
    ∷ (414, "toxxulia")
    ∷ (415, "mistythicket")
    ∷ (416, "kattacastrum")
    ∷ (417, "thalassius")
    ∷ (418, "atiiki")
    ∷ (419, "zhisza")
    ∷ (420, "silyssar")
    ∷ (421, "solteris")
    ∷ (422, "barren")
    ∷ (423, "buriedsea")
    ∷ (424, "jardelshook")
    ∷ (425, "monkeyrock")
    ∷ (426, "suncrest")
    ∷ (427, "deadbone")
    ∷ (428, "blacksail")
    ∷ (429, "maidensgrave")
    ∷ (430, "redfeather")
    ∷ (431, "shipmvp")
    ∷ (432, "shipmvu")
    ∷ (433, "shippvu")
    ∷ (434, "shipuvu")
    ∷ (435, "shipmvm")
    ∷ (436, "mechanotus")
    ∷ (437, "mansion")
    ∷ (438, "steamfactory")
    ∷ (439, "shipworkshop")
    ∷ (440, "gyrospireb")
    ∷ (441, "gyrospirez")
    ∷ (442, "dragonscale")
    ∷ (443, "lopingplains")
    ∷ (444, "hillsofshade")
    ∷ (445, "bloodmoon")
    ∷ (446, "crystallos")
    ∷ (447, "guardian")
    ∷ (448, "steamfontmts")
    ∷ (449, "cryptofshade")
    ∷ (451, "dragonscaleb")
    ∷ (452, "oldfieldofbone")
    ∷ (453, "oldkaesoraa")
    ∷ (454, "oldkaesorab")
    ∷ (455, "oldkurn")
    ∷ (456, "oldkithicor")
    ∷ (457, "oldcommons")
    ∷ (458, "oldhighpass")
    ∷ (459, "thevoida")
    ∷ (460, "thevoidb")
    ∷ (461, "thevoidc")
    ∷ (462, "thevoidd")
    ∷ (463, "thevoide")
    ∷ (464, "thevoidf")
    ∷ (465, "thevoidg")
    ∷ (466, "oceangreenhills")
    ∷ (467, "oceangreenvillage")
    ∷ (468, "oldblackburrow")
    ∷ (469, "bertoxtemple")
    ∷ (470, "discord")
    ∷ (471, "discordtower")
    ∷ (472, "oldbloodfield")
    ∷ (473, "precipiceofwar")
    ∷ (474, "olddranik")
    ∷ (475, "toskirakk")
    ∷ (476, "korascian")
    ∷ (477, "rathechamber")
    ∷ (480, "brellsrest")
    ∷ (481, "fungalforest")
    ∷ (482, "underquarry")
    ∷ (483, "coolingchamber")
    ∷ (484, "shiningcity")
    ∷ (485, "arthicrex")
    ∷ (486, "foundation")
    ∷ (487, "lichencreep")
    ∷ (488, "pellucid")
    ∷ (489, "stonesnake")
    ∷ (490, "brellstemple")
    ∷ (491, "convorteum")
    ∷ (492, "brellsarena")
    ∷ (493, "weddingchapel")
    ∷ (494, "weddingchapeldark")
    ∷ (495, "dragoncrypt")
    ∷ (700, "feerrott2")
    ∷ (701, "thulehouse1")
    ∷ (702, "thulehouse2")
    ∷ (703, "housegarden")
    ∷ (704, "thulelibrary")
    ∷ (705, "well")
    ∷ (706, "fallen")
    ∷ (707, "morellcastle")
    ∷ (708, "somnium")
    ∷ (709, "alkabormare")
    ∷ (710, "miragulmare")
    ∷ (711, "thuledream")
    ∷ (712, "neighborhood")
    ∷ (724, "argath")
    ∷ (725, "arelis")
    ∷ (726, "sarithcity")
    ∷ (727, "rubak")
    ∷ (728, "beastdomain")
    ∷ (729, "resplendent")
    ∷ (730, "pillarsalra")
    ∷ (731, "windsong")
    ∷ (732, "cityofbronze")
    ∷ (733, "sepulcher")
    ∷ (734, "eastsepulcher")
    ∷ (735, "westsepulcher")
    ∷ (752, "shardslanding")
    ∷ (753, "xorbb")
    ∷ (754, "kaelshard")
    ∷ (755, "eastwastesshard")
    ∷ (756, "crystalshard")
    ∷ (757, "breedinggrounds")
    ∷ (758, "eviltree")
    ∷ (759, "grelleth")
    ∷ (760, "chapterhouse")
    ∷ (996, "arttest")
    ∷ (998, "fhalls")
    ∷ (999, "apprentice")
    ∷ []

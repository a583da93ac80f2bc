-- ===== src/Packets/Structs/CharSelect.antt =====
-- src/char_select/char_select_structs_trilogy.h
use eqp.Common.{[], ◌∷◌}
use eqp.Packets.Struct.{Fields}

-- `CSTrilogy_WearChange`
abbrev pub wear_change : Fields
wear_change =
    ("unusedSpawnId", 4)
    ∷ ("slot", 1)
    ∷ ("material", 1)
    ∷ ("operation", 2)
    ∷ ("color", 4)
    ∷ ("unknownA", 1)
    ∷ ("flag", 1)
    ∷ ("unknownB", 2)
    ∷ []

-- `CSTrilogy_ZoneUnavailable`
abbrev pub zone_unavailable : Fields
zone_unavailable = ("shortName", 20) ∷ []

-- `CSTrilogy_ZoneAddress`
abbrev pub zone_address : Fields
zone_address = ("ipAddress", 75) ∷ ("zoneShortName", 53) ∷ ("port", 2) ∷ []

-- `CSTrilogy_TimeOfDay`
abbrev pub time_of_day : Fields
time_of_day = ("hour", 1) ∷ ("minute", 1) ∷ ("day", 1) ∷ ("month", 1) ∷ ("year", 2) ∷ []

-- ===== src/Packets/Zone/Message.antt =====
-- `client_trilogy_make_op_weather`, `client_trilogy_make_op_spawn_appearance` and
-- `client_trilogy_make_op_custom_message`: packets that are written without being cleared first.
use eqp.Common.{ℕ, List, [], ◌∷◌, length}
use eqp.Aligned.Defs.{Outcome}
use eqp.Packets.Plain.{uint16, uint32, buffer, write_plains}
use eqp.Packets.Struct.{Fields, Steps, sizeof, writes, start}
use eqp.Packets.Structs.Zone.{weather, spawn_appearance}

unfoldable pub weather_steps : ℕ → ℕ → Steps
weather_steps weather_type intensity =
    ("type", uint32 weather_type ∷ []) ∷ ("intensity", uint32 intensity ∷ []) ∷ []

unfoldable pub make_op_weather : ℕ → ℕ → List ℕ → Outcome (Unit {0})
make_op_weather weather_type intensity fresh =
    write_plains (writes (weather_steps weather_type intensity)) (start (sizeof weather) fresh)

unfoldable pub spawn_appearance_steps : (entity_id appearance value : ℕ) → Steps
spawn_appearance_steps entity_id appearance value =
    ("entityId", uint16 entity_id ∷ [])
    ∷ ("unknownA", uint16 0 ∷ [])
    ∷ ("type", uint16 appearance ∷ [])
    ∷ ("unknownB", uint16 0 ∷ [])
    ∷ ("value", uint32 value ∷ [])
    ∷ []

unfoldable pub make_op_spawn_appearance :
    (entity_id appearance value : ℕ) → List ℕ → Outcome (Unit {0})
make_op_spawn_appearance entity_id appearance value fresh =
    write_plains (writes (spawn_appearance_steps entity_id appearance value))
      (start (sizeof spawn_appearance) fresh)

-- `Trilogy_CustomMessage`, for a text of `n` bytes with its terminator.
abbrev pub custom_message : ℕ → Fields
custom_message n = ("chatChannel", 4) ∷ ("message", n) ∷ []

-- `text` has its terminator: `len++` has been done.
unfoldable pub custom_message_steps : ℕ → List ℕ → Steps
custom_message_steps chat_channel text =
    ("chatChannel", uint32 chat_channel ∷ []) ∷ ("message", buffer text ∷ []) ∷ []

unfoldable pub make_op_custom_message : ℕ → List ℕ → List ℕ → Outcome (Unit {0})
make_op_custom_message chat_channel text fresh =
    write_plains (writes (custom_message_steps chat_channel text))
      (start (sizeof (custom_message (length text))) fresh)

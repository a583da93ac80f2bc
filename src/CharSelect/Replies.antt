-- ===== src/CharSelect/Replies.antt =====
-- The bodies that src/char_select/char_select_client_trilogy.c writes.
use eqp.Common.{ℕ, zero, suc, ◌+◌, ◌*◌, true, false, Bool, List, [], ◌∷◌, ◌++◌}
use eqp.Packets.Plain.{Plain, uint8, uint16, uint32, skip, zeroes, chars, buffer}
use eqp.Packets.Struct.{Fields, Steps, sizeof, sizeof_field, writes}
use eqp.Packets.Structs.CharSelect.{wear_change, zone_unavailable, zone_address, time_of_day}
use eqp.Net.Crc.{to_network_uint16}

-- The reply of `cs_trilogy_handle_op_wear_change`.
unfoldable pub wear_change_steps : (slot material : ℕ) → Steps
wear_change_steps slot material =
    ("unusedSpawnId", uint32 0 ∷ [])
    ∷ ("slot", uint8 slot ∷ [])
    ∷ ("material", uint8 material ∷ [])
    ∷ ("operation", zeroes (2 + 4 + 1 * 2 + 2) ∷ [])
    ∷ []

-- `cs_client_trilogy_on_zone_in_failure`
unfoldable pub zone_unavailable_steps : List ℕ → Steps
zone_unavailable_steps zone_short_name =
    ("shortName", chars (sizeof_field zone_unavailable "shortName") zone_short_name ∷ []) ∷ []

-- The three packets of `cs_client_trilogy_on_zone_in_success`.
unfoldable pub message_of_the_day_steps : List ℕ → Steps
message_of_the_day_steps text = ("message", buffer text ∷ uint8 0 ∷ []) ∷ []

unfoldable pub time_of_day_steps : (hour minute day month year : ℕ) → Steps
time_of_day_steps hour minute day month year =
    ("hour", uint8 hour ∷ [])
    ∷ ("minute", uint8 minute ∷ [])
    ∷ ("day", uint8 day ∷ [])
    ∷ ("month", uint8 month ∷ [])
    ∷ ("year", uint16 year ∷ [])
    ∷ []

unfoldable pub zone_address_steps : (ip_address short_name : List ℕ) → ℕ → Steps
zone_address_steps ip_address short_name port =
    ("ipAddress", chars (sizeof_field zone_address "ipAddress") ip_address ∷ [])
    ∷ ("zoneShortName", chars (sizeof_field zone_address "zoneShortName") short_name ∷ [])
    ∷ ("port", uint16 (to_network_uint16 port) ∷ [])
    ∷ []

-- `CSTrilogy_GuildEntry`, as `cs_trilogy_handle_op_guild_list` writes it, and the list.
abbrev guild_entry : Fields
guild_entry =
    ("guildId", 4)
    ∷ ("name", 32)
    ∷ ("unknownA", 4)
    ∷ ("exists", 4)
    ∷ ("unknownB", 4)
    ∷ ("unknownC", 4)
    ∷ ("unknownD", 4)
    ∷ []

abbrev guild_entry_steps : Steps
guild_entry_steps =
    ("guildId", uint32 0xffffffff ∷ [])
    ∷ ("name", skip 32 ∷ [])
    ∷ ("unknownA", uint32 0xffffffff ∷ [])
    ∷ ("exists", skip (4 * 2) ∷ [])
    ∷ ("unknownC", uint32 0xffffffff ∷ [])
    ∷ ("unknownD", skip 4 ∷ [])
    ∷ []

abbrev max_guilds : ℕ
max_guilds = 512

abbrev guilds : ℕ → List Plain
guilds zero = []
guilds (suc n) = writes guild_entry_steps ++ guilds n

abbrev pub guild_list : Fields
guild_list = ("unknown", 4) ∷ ("guilds", max_guilds * sizeof guild_entry) ∷ []

unfoldable pub guild_list_steps : Steps
guild_list_steps = ("unknown", skip 4 ∷ []) ∷ ("guilds", guilds max_guilds) ∷ []

-- What is sent.
pub data Reply : Type 0 where
  wear_change_of : (slot material : ℕ) → Reply
  zone_unavailable_of : List ℕ → Reply
  time_of_day_of : (hour minute day month year : ℕ) → Reply
  zone_address_of : (ip_address short_name : List ℕ) → ℕ → Reply
  guild_list_of : Reply

abbrev pub struct_of : Reply → Fields
struct_of (wear_change_of s m) = wear_change
struct_of (zone_unavailable_of n) = zone_unavailable
struct_of (time_of_day_of h m d n y) = time_of_day
struct_of (zone_address_of i n p) = zone_address
struct_of guild_list_of = guild_list

abbrev pub steps_of : Reply → Steps
steps_of (wear_change_of s m) = wear_change_steps s m
steps_of (zone_unavailable_of n) = zone_unavailable_steps n
steps_of (time_of_day_of h m d n y) = time_of_day_steps h m d n y
steps_of (zone_address_of i n p) = zone_address_steps i n p
steps_of guild_list_of = guild_list_steps

-- Only the guild list is cleared first.
abbrev pub is_cleared : Reply → Bool
is_cleared (wear_change_of s m) = false
is_cleared (zone_unavailable_of n) = false
is_cleared (time_of_day_of h m d n y) = false
is_cleared (zone_address_of i n p) = false
is_cleared guild_list_of = true

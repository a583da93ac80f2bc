-- ===== src/Packets/Tests.antt =====
-- Packets of the zone servers: a client, a zone, a mob, an item, and a profile.
use eqp.Common.{
  ℕ, ◌^◌, ◌≡◌, refl, true, false, none, some, List, [], ◌∷◌, ◌++◌, replicate, drop, arith, AreBelow,
}
use eqp.Aligned.Defs.{Aligned, ok}
use eqp.Aligned.Bytes.{le_bytes}
use eqp.Net.Crc.{crc_calc32, complement}
use eqp.Packets.Struct.{sizeof, lands}
use eqp.Packets.Structs.Zone.{zone_entry}
use eqp.Packets.Profile.Head.{Profile, Place, player_profile, shape}
use eqp.Packets.Profile.Tail.{profile_groups, write_player_profile}
use eqp.Packets.Profile.Laws.{write_player_profile_lem}
use eqp.Packets.Zone.Mobs.{Floats, Client, Mob, client}
use eqp.Packets.Zone.Entry.{send_zone_entry}
use eqp.Packets.Zone.Obfuscate.{spawn, spawn_obfuscate, words, bytes, player_profile_obfuscate}
use eqp.Packets.Zone.Obfuscate.Inverse.{
  unscramble_all, player_profile_restore, spawn_obfuscate-undone, player_profile_obfuscate-undone,
}
use eqp.Packets.Zone.Laws.{weather_of}
use eqp.Packets.Zone.Memory.{send_of, send_of-memory}
use eqp.Packets.Zone.Checksum.{entry_body, send_zone_entry_lem}

-- A machine on which every `float` is 0.
abbrev no_floats : Floats
no_floats = record { to_int16 = λ x. 0; times = λ x n. 0 }

abbrev soandso : Client
soandso = record {
  name = b'S' ∷ b'o' ∷ [];
  surname = some (b'A' ∷ []);
  zone_short_name = b'q' ∷ [];
  x = 0;
  y = 0;
  z = 0;
  heading = 0;
  guild_id = 0;
  guild_rank = 0;
  class_ = 1;
  base_race = 1;
  base_gender = 0;
  level = 50;
  is_pvp = false;
  is_gm = true;
  is_afk = false;
  is_linkdead = false;
  face = 3;
  helm_texture = 0;
  texture = 0;
  primary_model_id = 5;
  secondary_model_id = 0;
  base_walking_speed = 0;
  base_running_speed = 0;
  anon_setting = 0;
  deity = 396;
}

abbrev somebody : Mob
somebody = record {
  mob_type = client;
  as_client = soandso;
  surname_text = b'A' ∷ [];
  current_size = 0;
  current_walking_speed = 0;
  current_running_speed = 0;
  tint = λ i. i;
  material = λ i. i;
  heading_raw = 7;
  x = 0;
  y = 0;
  z = 0;
  entity_id = 300;
  body_type = 0;
  owner_entity_id = 0;
  hp_ratio = 100;
  current_race = 300;
  class_ = 1;
  current_gender = 0;
  level = 50;
  is_invisible = false;
  upright_state = 100;
  light_level = 0;
  texture = 0;
  helm_texture = 0;
  primary_model_id = 5;
  secondary_model_id = 0;
  friendly_name = b'S' ∷ b'o' ∷ [];
  deity = 396;
}

memory_example : send_of (weather_of 2 5) (replicate 8 9) ≡ send_of (weather_of 2 5) (replicate 8 0)
memory_example = send_of-memory (weather_of 2 5) (replicate 8 9) (replicate 8 0) refl refl refl

checksum_example :
    let behind = drop 4 (entry_body no_floats soandso (replicate 312 9)) in
    send_zone_entry no_floats soandso (replicate 312 9)
    ≡ ok tt (record {
      cursor = 4;
      length_ = sizeof zone_entry;
      buffer = le_bytes 4 (complement (crc_calc32 behind)) ++ behind;
    })
checksum_example = send_zone_entry_lem no_floats soandso (replicate 312 9) refl

abbrev eight : List ℕ
eight = 1 ∷ 2 ∷ 3 ∷ 4 ∷ 250 ∷ 251 ∷ 252 ∷ 253 ∷ []

abbrev eight-AreBelow : AreBelow 256 eight
eight-AreBelow = (
  omega arith,
  (
    omega arith,
    (omega arith, (omega arith, (omega arith, (omega arith, (omega arith, (omega arith, tt)))))),
  ),
)

spawn_obfuscate_example : bytes (unscramble_all spawn 0 (words (spawn_obfuscate eight))) ≡ eight
spawn_obfuscate_example = spawn_obfuscate-undone 2 eight refl eight-AreBelow

abbrev three-AreBelow : AreBelow (2 ^ 32) (11 ∷ 22 ∷ 33 ∷ [])
three-AreBelow = (omega arith, (omega arith, (omega arith, tt)))

player_profile_obfuscate_example :
    player_profile_restore 15 (player_profile_obfuscate 15 (11 ∷ 22 ∷ 33 ∷ [])) ≡ 11 ∷ 22 ∷ 33 ∷ []
player_profile_obfuscate_example =
    player_profile_obfuscate-undone 15 (11 ∷ 22 ∷ 33 ∷ []) refl (omega arith) three-AreBelow

abbrev qeynos : Place
qeynos = record { zone_short_name = b'q' ∷ []; x = 0; y = 0; z = 0; heading = 0 }

abbrev kept : Profile
kept = record {
  name = b'S' ∷ b'o' ∷ [];
  surname = none;
  gender = 0;
  race = 1;
  class_ = 1;
  level = 50;
  experience = 1000;
  training_points = 5;
  current_mana = 0;
  face = 3;
  current_hp = 100;
  stat = λ i. 75;
  language = λ i. 100;
  slots = record { slot_id = 22; item_id = 1001; aug_slot_id = 0; charges = 3 } ∷ [];
  known_spells = (0, 200) ∷ [];
  memorized_spell = λ i. 0;
  recast_timestamp = λ i. 0;
  place = qeynos;
  coins = replicate 16 1;
  coins_bank = replicate 16 0;
  coins_cursor = replicate 16 0;
  skill = λ i. 10;
  is_auto_split_enabled = true;
  is_pvp = false;
  is_gm = false;
  discipline_timestamp = 0;
  hunger_level = 100;
  thirst_level = 100;
  bind_point = λ i. qeynos;
  creation_timestamp = 1;
  deity = 396;
  guild_id = 0;
  guild_rank = 0;
  anon_setting = 0;
  drunkeness = 0;
  harmtouch_timestamp = 0;
}

profile_example :
    (lands player_profile (shape (profile_groups 2111 500 kept)) ≡ true)
    × ((b : Aligned) × (write_player_profile 2111 500 kept (replicate 8104 9) ≡ ok tt b)
        × (b.cursor ≡ 4724)
        × (b.length_ ≡ sizeof player_profile))
profile_example = write_player_profile_lem 500 kept (replicate 8104 9) (refl, refl, refl) refl

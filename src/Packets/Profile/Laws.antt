-- ===== src/Packets/Profile/Laws.antt =====
-- The body of a player's profile fits its structure: src/common/player_profile.h.
use eqp.Common.{ℕ, ◌≡◌, refl, true, List, ◌++◌, length, arith, Option-cases, inl, inr}
use eqp.Aligned.Defs.{Aligned, ok}
use eqp.Packets.Body.{prepare-IsValid}
use eqp.Packets.Plain.{total}
use eqp.Packets.Parts.{moves, all_stay}
use eqp.Packets.Parts.Laws.{parts-Went}
use eqp.Packets.Struct.{sizeof, zero_all, lands}
use eqp.Packets.Profile.Head.{Profile, player_profile, head_groups, parts_of, shape}
use eqp.Packets.Profile.Items.{item_groups}
use eqp.Packets.Profile.Middle.{spell_groups, setting_groups}
use eqp.Packets.Profile.Bank.{bank_groups, bind_groups, bank_id_groups}
use eqp.Packets.Profile.Tail.{tail_groups, end_parts, profile_groups, write_player_profile}

-- Coins are copied as they stand in memory, sixteen bytes each.
abbrev pub HasCoins : Profile → Type 0
HasCoins p = (length p.coins ≡ 16) × (length p.coins_bank ≡ 16) × (length p.coins_cursor ≡ 16)

profile_groups-lands :
    (time : ℕ) (p : Profile)
    → HasCoins p
    → lands player_profile (shape (profile_groups 2111 time p)) ≡ true
unfolding profile_groups head_groups item_groups spell_groups setting_groups bank_groups bind_groups
    bank_id_groups tail_groups
profile_groups-lands time p (a, b, c) = elim (Option-cases p.surname) [
  | inl e ↦ rw (e, a, b, c) refl
  | inr (t, e) ↦ rw (e, a, b, c) refl
]

profile-fits :
    (time : ℕ) (p : Profile)
    → HasCoins p
    → let ps = parts_of (profile_groups 2111 time p) ++ end_parts in
      (total (moves ps) ≡ 4724) × (all_stay (sizeof player_profile) 0 ps ≡ true)
unfolding profile_groups head_groups item_groups spell_groups setting_groups bank_groups bind_groups
    bank_id_groups tail_groups end_parts
profile-fits time p (a, b, c) = elim (Option-cases p.surname) [
  | inl e ↦ (rw (e, a, b, c) refl, rw (e, a, b, c) refl)
  | inr (t, e) ↦ (rw (e, a, b, c) refl, rw (e, a, b, c) refl)
]

-- Whatever the character, its items and its spells, when its coins have sixteen bytes: every group
-- of writes of its profile begins where its field stands in the packed structure, the last one before
-- `unknownW` ends where that begins, and in memory of the structure's size nothing throws and 4724
-- bytes are passed.
pub write_player_profile_lem :
    (time : ℕ) (p : Profile) (fresh : List ℕ)
    → HasCoins p
    → length fresh ≡ sizeof player_profile
    → (lands player_profile (shape (profile_groups 2111 time p)) ≡ true)
      × ((b : Aligned) × (write_player_profile 2111 time p fresh ≡ ok tt b)
          × (b.cursor ≡ 4724)
          × (b.length_ ≡ sizeof player_profile))
unfolding write_player_profile
write_player_profile_lem time p fresh coins h =
    let (size, room) = profile-fits time p coins in
    let v = prepare-IsValid true (sizeof player_profile) fresh h (omega arith) in
    let (b, wrote, went) =
      parts-Went (parts_of (profile_groups 2111 time p) ++ end_parts)
        {a = zero_all (sizeof player_profile) fresh} v (omega arith) room in
    let at = went.moved in
    (profile_groups-lands time p coins, (b, wrote, omega (arith, at, size), went.same_length))

-- ===== src/Packets/Zone/Obfuscate/Inverse.antt =====
-- What a client does to read an obfuscated packet: the two functions of
-- src/zone_cluster/mob/client_packet_trilogy_output.c have inverses.
use eqp.Common.{
  ℕ, zero, suc, ◌+◌, ◌-◌, ◌*◌, ◌/◌, ◌%◌, ◌^◌, ◌≤◌, ◌<◌, ◌≡◌, refl, ap, ◌∙◌, List, [], ◌∷◌, length,
  arith, get_or, set, get_or-set, AreBelow,
}
use eqp.Common.Bits.{bit_or_high}
use eqp.Packets.Zone.Obfuscate.{
  Cipher, player_profile, spawn, rotate, scramble, following, scramble_all, words, bytes,
  spawn_obfuscate, swap_words, player_profile_obfuscate, bit_or,
}

-- The word that `scramble` made `v` of.
abbrev unscramble : Cipher → ℕ → ℕ → ℕ
unscramble c cur v =
    let first = rotate c.right2 c.left2 ((v + cur) % 2 ^ 32) in
    rotate c.right1 c.left1 ((first + 2 ^ 32 - c.add) % 2 ^ 32)

abbrev pub unscramble_all : Cipher → ℕ → List ℕ → List ℕ
unscramble_all c cur [] = []
unscramble_all c cur (v ∷ vs) =
    let w = unscramble c cur v in w ∷ unscramble_all c (following c cur w) vs

rotate-sum :
    (left right w : ℕ)
    → w * 2 ^ left % 2 ^ 32 ≡ w % 2 ^ right * 2 ^ left
    → w / 2 ^ right < 2 ^ left
    → rotate left right w ≡ w / 2 ^ right + w % 2 ^ right * 2 ^ left
unfolding rotate
rotate-sum left right w h k =
    ap (λ t. bit_or t (w / 2 ^ right)) h ∙ bit_or_high left (w / 2 ^ right) (w % 2 ^ right) k

-- Rotating stays in 32 bits, and rotating back gives the word again.
abbrev Turns : ℕ → ℕ → Type 0
Turns left right =
    (w : ℕ)
    → w < 2 ^ 32
    → (rotate left right w < 2 ^ 32) × (rotate right left (rotate left right w) ≡ w)

turns7 : Turns 7 25
turns7 w h =
    let there = rotate-sum 7 25 w (omega arith) (omega arith) in
    let back = rotate-sum 25 7 (rotate 7 25 w) (omega arith) (omega arith) in
    (omega arith, omega arith)

turns15 : Turns 15 17
turns15 w h =
    let there = rotate-sum 15 17 w (omega arith) (omega arith) in
    let back = rotate-sum 17 15 (rotate 15 17 w) (omega arith) (omega arith) in
    (omega arith, omega arith)

turns9 : Turns 9 23
turns9 w h =
    let there = rotate-sum 9 23 w (omega arith) (omega arith) in
    let back = rotate-sum 23 9 (rotate 9 23 w) (omega arith) (omega arith) in
    (omega arith, omega arith)

turns13 : Turns 13 19
turns13 w h =
    let there = rotate-sum 13 19 w (omega arith) (omega arith) in
    let back = rotate-sum 19 13 (rotate 13 19 w) (omega arith) (omega arith) in
    (omega arith, omega arith)

-- The ciphers in use: both rotations turn, and the number added has 32 bits.
pub record IsCipher (c : Cipher) : Type 0 where
  pub first : Turns c.left1 c.right1
  pub second : Turns c.left2 c.right2
  pub added : c.add < 2 ^ 32

player_profile-IsCipher : IsCipher player_profile
player_profile-IsCipher = record { first = turns7; second = turns15; added = omega arith }

spawn-IsCipher : IsCipher spawn
spawn-IsCipher = record { first = turns9; second = turns13; added = omega arith }

unscramble-scramble :
    (c : Cipher) (cur w : ℕ)
    → IsCipher c
    → cur < 2 ^ 32
    → w < 2 ^ 32
    → unscramble c cur (scramble c cur w) ≡ w
unfolding scramble
unscramble-scramble c cur w k h j =
    let u = rotate c.left1 c.right1 w in
    let first = (u + c.add) % 2 ^ 32 in
    let v = rotate c.left2 c.right2 first in
    let (u_small, u_back) = k.first w j in
    let (v_small, v_back) = k.second first (omega arith) in
    let a : ((v + 2 ^ 32 - cur) % 2 ^ 32 + cur) % 2 ^ 32 ≡ v = omega arith in
    let b : (first + 2 ^ 32 - c.add) % 2 ^ 32 ≡ u = omega (arith, k.added) in
    rw (a, v_back, b, u_back) refl

unscramble_all-scramble_all :
    (c : Cipher) (cur : ℕ) (ws : List ℕ)
    → IsCipher c
    → cur < 2 ^ 32
    → AreBelow (2 ^ 32) ws
    → unscramble_all c cur (scramble_all c cur ws) ≡ ws
unfolding scramble_all following
unscramble_all-scramble_all c cur [] k h bs = refl
unscramble_all-scramble_all c cur (w ∷ ws) k h (b, bs) =
    let here = unscramble-scramble c cur w k h b in
    rw here
      (ap (λ vs. w ∷ vs) (unscramble_all-scramble_all c (following c cur w) ws k (omega arith) bs))

scramble_all-AreBelow :
    (c : Cipher) (cur : ℕ) (ws : List ℕ) → AreBelow (2 ^ 32) (scramble_all c cur ws)
unfolding scramble_all scramble
scramble_all-AreBelow c cur [] = tt
scramble_all-AreBelow c cur (w ∷ ws) = (omega arith, scramble_all-AreBelow c (following c cur w) ws)

words-bytes : (ws : List ℕ) → AreBelow (2 ^ 32) ws → words (bytes ws) ≡ ws
words-bytes [] h = refl
words-bytes (w ∷ ws) (b, bs) =
    let whole : w % 256
          + w / 256 % 256 * 2 ^ 8
          + w / 256 / 256 % 256 * 2 ^ 16
          + w / 256 / 256 / 256 % 256 * 2 ^ 24
        ≡ w =
      omega arith in
    ap (λ t. t ∷ words (bytes ws)) whole ∙ ap (λ t. w ∷ t) (words-bytes ws bs)

bytes-words :
    (n : ℕ) (bs : List ℕ)
    → length bs ≡ 4 * n
    → AreBelow 256 bs
    → (bytes (words bs) ≡ bs) × AreBelow (2 ^ 32) (words bs)
bytes-words n [] h k = (refl, tt)
bytes-words n (a ∷ []) h k = absurd (omega arith)
bytes-words n (a ∷ (b ∷ [])) h k = absurd (omega arith)
bytes-words n (a ∷ (b ∷ (c ∷ []))) h k = absurd (omega arith)
bytes-words n (a ∷ (b ∷ (c ∷ (d ∷ bs)))) h (ka, (kb, (kc, (kd, ks)))) =
    let (same, below) = bytes-words (n - 1) bs (omega arith) ks in
    let word = a + b * 2 ^ 8 + c * 2 ^ 16 + d * 2 ^ 24 in
    let lowest : word % 256 ≡ a = omega arith in
    let second : word / 256 % 256 ≡ b = omega arith in
    let third : word / 256 / 256 % 256 ≡ c = omega arith in
    let fourth : word / 256 / 256 / 256 % 256 ≡ d = omega arith in
    (rw (lowest, second, third, fourth, same) refl, (omega arith, below))

-- A client that undoes the words one after the other reads the bytes of the spawn, however many
-- words there are.
pub spawn_obfuscate-undone :
    (n : ℕ) (bs : List ℕ)
    → length bs ≡ 4 * n
    → AreBelow 256 bs
    → bytes (unscramble_all spawn 0 (words (spawn_obfuscate bs))) ≡ bs
unfolding spawn_obfuscate
spawn_obfuscate-undone n bs h k =
    let (same, below) = bytes-words n bs h k in
    rw
      (
        words-bytes (scramble_all spawn 0 (words bs)) (scramble_all-AreBelow spawn 0 (words bs)),
        unscramble_all-scramble_all spawn 0 (words bs) spawn-IsCipher (omega arith) below,
      )
      same

set-set : (ws : List ℕ) (i v w : ℕ) → set (set ws i v) i w ≡ set ws i w
set-set [] i v w = refl
set-set (x ∷ ws) zero v w = refl
set-set (x ∷ ws) (suc i) v w = ap (λ t. x ∷ t) (set-set ws i v w)

set-get_or : (ws : List ℕ) (i : ℕ) → i < length ws → set ws i (get_or ws i 0) ≡ ws
set-get_or [] i h = refl
set-get_or (x ∷ ws) zero h = refl
set-get_or (x ∷ ws) (suc i) h = ap (λ t. x ∷ t) (set-get_or ws i (omega arith))

swap_words-swap_words : (i : ℕ) (ws : List ℕ) → i < length ws → swap_words i (swap_words i ws) ≡ ws
unfolding swap_words
swap_words-swap_words i [] h = absurd (omega arith)
swap_words-swap_words zero (w ∷ ws) h = refl
swap_words-swap_words (suc i) (w ∷ ws) h =
    let back : get_or (set ws i w) i 0 ≡ w = ground (arith, get_or-set ws i i w 0) in
    rw back (ap (λ t. w ∷ t) (set-set ws i w (get_or ws i 0) ∙ set-get_or ws i (omega arith)))

get_or-AreBelow :
    (i : ℕ) (ws : List ℕ) → i < length ws → AreBelow (2 ^ 32) ws → get_or ws i 0 < 2 ^ 32
get_or-AreBelow i [] h b = absurd (omega arith)
get_or-AreBelow zero (w ∷ ws) h (b, bs) = b
get_or-AreBelow (suc i) (w ∷ ws) h (b, bs) = get_or-AreBelow i ws (omega arith) bs

set-AreBelow :
    (i v : ℕ) (ws : List ℕ) → v < 2 ^ 32 → AreBelow (2 ^ 32) ws → AreBelow (2 ^ 32) (set ws i v)
set-AreBelow i v [] k b = tt
set-AreBelow zero v (w ∷ ws) k (b, bs) = (k, bs)
set-AreBelow (suc i) v (w ∷ ws) k (b, bs) = (b, set-AreBelow i v ws k bs)

swap_words-AreBelow :
    (i : ℕ) (ws : List ℕ)
    → i < length ws
    → AreBelow (2 ^ 32) ws
    → AreBelow (2 ^ 32) (swap_words i ws)
unfolding swap_words
swap_words-AreBelow i [] h b = absurd (omega arith)
swap_words-AreBelow zero (w ∷ ws) h b = b
swap_words-AreBelow (suc i) (w ∷ ws) h (b, bs) =
    (get_or-AreBelow i ws (omega arith) bs, set-AreBelow i w ws b bs)

-- What a client does to a profile of `len` bytes.
abbrev pub player_profile_restore : ℕ → List ℕ → List ℕ
player_profile_restore len vs = swap_words (len / 8) (unscramble_all player_profile 0x65e7 vs)

-- A profile of at least four bytes is restored by undoing the words one after the other and then
-- changing the first word for the middle one again.
pub player_profile_obfuscate-undone :
    (len : ℕ) (ws : List ℕ)
    → length ws ≡ len / 4
    → 4 ≤ len
    → AreBelow (2 ^ 32) ws
    → player_profile_restore len (player_profile_obfuscate len ws) ≡ ws
unfolding player_profile_obfuscate
player_profile_obfuscate-undone len ws h k b =
    let inside : len / 8 < length ws = omega arith in
    let below = swap_words-AreBelow (len / 8) ws inside b in
    ap (swap_words (len / 8)) (
      unscramble_all-scramble_all player_profile 0x65e7 (swap_words (len / 8) ws)
        player_profile-IsCipher (omega arith) below)
    ∙ swap_words-swap_words (len / 8) ws inside

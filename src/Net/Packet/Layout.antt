-- ===== src/Net/Packet/Layout.antt =====
-- Where `packet_trilogy_fragmentize` puts each byte of the data.
use eqp.Common.{
  ℕ, zero, suc, ◌+◌, ◌-◌, ◌*◌, ◌/◌, ◌^◌, ◌≤◌, ◌<◌, ◌≡◌, refl, ◌∙◌, ap, List, length, get_or, ltb,
  ◌==◌, arith, Bool-cases, inl, inr,
}
use eqp.Net.Packet.{Packet, spread, last_length, fragmentize, length_raw, minus}
use eqp.Net.Packet.Copy.{copy_back_lem, moved}

-- The fragment that carries byte `j`: the first takes 510 bytes, the others 512.
abbrev pub fragment_of : ℕ → ℕ
fragment_of j = (j + 2) / 512

-- The place of byte `j` in the data area: behind the header, and behind a header and a checksum for
-- every fragment before its own.
abbrev pub place : ℕ → ℕ
place j = 18 + j + 22 * fragment_of j

-- How many bytes have a place to go to while `n` fragments are left, the next of `len` bytes.
abbrev Remaining : ℕ → ℕ → ℕ → Type 0
Remaining zero len end = end ≤ 510
Remaining (suc n) len end = (end ≡ 512 * suc n - 2 + len) × (0 < len) × (len ≤ 512)

record Placed (n : ℕ) (xs : List ℕ) (src end : ℕ) (out : List ℕ) : Type 0 where
  size : length out ≡ length xs
  bytes : (j : ℕ) → j < end → get_or out (place j) 0 ≡ get_or xs (18 + j) 0
  behind : (k : ℕ) → src + 22 * n < k → get_or out k 0 ≡ get_or xs k 0

module _ (n len : ℕ) (xs ys : List ℕ) (src end : ℕ) where
  -- The round for the fragment `suc n`, the lower ones already dealt with.
  step_Placed :
      {out : List ℕ}
      → Remaining (suc n) len end
      → src ≡ end + 17
      → ((k : ℕ) → get_or ys k 0 ≡ moved (22 * suc n) len xs (src + 22 * suc n) k)
      → length ys ≡ length xs
      → Placed n ys (src - len) (end - len) out
      → Placed (suc n) xs src end out
  step_Placed {out} e s m z r = record {
    size = r.size ∙ z;
    bytes = λ j h. elim (Bool-cases (ltb j (end - len))) [
      | inl lower ↦ r.bytes j (ground arith) ∙ m (18 + j) ∙ ground arith
      | inr own ↦
          let at : fragment_of j ≡ suc n = ground arith in
          r.behind (place j) (ground arith)
          ∙ m (place j)
          ∙ (let back : place j - 22 * suc n ≡ 18 + j = omega arith in ground arith)
    ];
    behind = λ k h. r.behind k (omega arith) ∙ m k ∙ ground arith;
  }

Remaining-next : (n len end : ℕ) → Remaining (suc n) len end → Remaining n 512 (end - len)
Remaining-next zero len end e = omega arith
Remaining-next (suc n) len end e = omega arith

spread_lem :
    (n len : ℕ) (xs : List ℕ) (src end : ℕ)
    → Remaining n len end
    → src ≡ end + 17
    → src + 22 * n < length xs
    → length xs < 2 ^ 32
    → Placed n xs src end (spread n len xs (src + 22 * n) src)
unfolding spread
spread_lem zero len xs src end e s b w = record {
  size = refl;
  bytes = λ j h. ap (λ k. get_or xs k 0) (omega arith);
  behind = λ k h. refl;
}
spread_lem (suc n) len xs src end e s b w =
    let c = copy_back_lem (22 * suc n) len xs (src + 22 * suc n) src (omega arith) refl b w in
    let down : minus (src + 22 * suc n - len) 22 ≡ src - len + 22 * n = omega arith in
    rw (c.dst_end, c.src_end, down)
      (step_Placed n len xs _ src end e s c.elems c.size (
        spread_lem n 512 _ (src - len) (end - len) (Remaining-next n len end e) (omega arith)
          (omega (arith, c.size)) (omega (arith, c.size))))

-- The number of fragments is the one that the data need: all but the last are full.
pub record IsPlanned (p : Packet) : Type 0 where
  pub full : 512 * p.frag_count < p.data_length + 2
  pub room : p.data_length + 2 ≤ 512 * (p.frag_count + 1)
  pub allocated : length p.bytes ≡ length_raw p
  pub small : length_raw p < 2 ^ 32

length_raw_lem : (p : Packet) → length_raw p ≡ p.data_length + 22 * p.frag_count + 22
unfolding length_raw
length_raw_lem p = omega arith

last_length-Remaining :
    (n length : ℕ)
    → 0 < n
    → 512 * n < length + 2
    → length + 2 ≤ 512 * (n + 1)
    → Remaining n (last_length length) length
unfolding last_length
last_length-Remaining zero length p h g = absurd (omega arith)
last_length-Remaining (suc n) length p h g = ground arith

fragmentize_all :
    (p : Packet)
    → IsPlanned p
    → (length (fragmentize p).bytes ≡ length p.bytes)
      × ((j : ℕ)
          → j < p.data_length
          → get_or (fragmentize p).bytes (place j) 0 ≡ get_or p.bytes (18 + j) 0)
unfolding fragmentize
fragmentize_all p v = elim (Bool-cases (p.frag_count == 0)) [
  | inl one ↦ rw one (refl, λ j h. ap (λ k. get_or p.bytes k 0) (ground arith))
  | inr more ↦
      let n = p.frag_count in
      let len = last_length p.data_length in
      let src = p.data_length + 18 - 1 in
      let raw = length_raw_lem p in
      let top : length_raw p - 4 - 1 ≡ src + 22 * n = omega arith in
      let start = last_length-Remaining n p.data_length (ground arith) v.full v.room in
      let r =
        spread_lem n len p.bytes src p.data_length start (omega arith) (omega arith)
          (omega arith) in
      rw (more, top) (r.size, r.bytes)
]

-- In a packet with as many fragments as its data need, every byte of the data ends up in its
-- fragment: behind the header of the packet, with 22 bytes left free for each fragment before its
-- own. The area keeps its size.
pub fragmentize_lem :
    (p : Packet) (j : ℕ)
    → IsPlanned p
    → j < p.data_length
    → (length (fragmentize p).bytes ≡ length p.bytes)
      × (get_or (fragmentize p).bytes (place j) 0 ≡ get_or p.bytes (18 + j) 0)
fragmentize_lem p j v h = let (size, bytes) = fragmentize_all p v in (size, bytes j h)

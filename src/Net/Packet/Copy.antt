-- ===== src/Net/Packet/Copy.antt =====
-- The inner loop of `packet_trilogy_fragmentize`, which copies from the end, where source and
-- destination may overlap.
use eqp.Common.{
  ℕ, zero, suc, ◌+◌, ◌-◌, ◌^◌, ◌≤◌, ◌<◌, ◌≡◌, refl, ◌∙◌, List, length, set, get_or, get_or-set,
  length-set, ltb, leb, ◌&&◌, if◌then◌else◌, arith,
}
use eqp.Net.Packet.{copy_back, minus}

module _ (gap : ℕ) where
  -- What stands at `k` after `n` bytes up to `src` have moved up by `gap`, up to `dst`.
  abbrev pub moved : ℕ → List ℕ → ℕ → ℕ → ℕ
  moved n xs dst k = if ltb dst (k + n) && leb k dst then get_or xs (k - gap) 0 else get_or xs k 0

pub record Copied (gap n : ℕ) (xs : List ℕ) (dst src : ℕ) (out : List ℕ × ℕ × ℕ) : Type 0 where
  pub elems : (k : ℕ) → get_or out.0 k 0 ≡ moved gap n xs dst k
  pub size : length out.0 ≡ length xs
  pub dst_end : out.1 ≡ dst - n
  pub src_end : out.2 ≡ src - n

pub copy_back_lem :
    (gap n : ℕ) (xs : List ℕ) (dst src : ℕ)
    → n ≤ src
    → dst ≡ src + gap
    → dst < length xs
    → length xs < 2 ^ 32
    → Copied gap n xs dst src (copy_back n xs dst src)
unfolding copy_back
copy_back_lem gap zero xs dst src h e b s = record {
  elems = λ k. ground arith;
  size = refl;
  dst_end = omega arith;
  src_end = omega arith;
}
copy_back_lem gap (suc n) xs dst src h e b s =
    let x = get_or xs src 0 in
    let ys = set xs dst x in
    let same = length-set xs dst x in
    let d : minus dst 1 ≡ dst - 1 = omega arith in
    let c : minus src 1 ≡ src - 1 = omega arith in
    let r =
      copy_back_lem gap n ys (dst - 1) (src - 1) (omega arith) (omega arith) (omega arith)
        (omega arith) in
    rw (d, c)
      (record {
        elems = λ k.
            r.elems k
            ∙ ground (arith, get_or-set xs dst k x 0 b, get_or-set xs dst (k - gap) x 0 b);
        size = r.size ∙ same;
        dst_end = omega (arith, r.dst_end);
        src_end = omega (arith, r.src_end);
      })

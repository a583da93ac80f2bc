-- ===== src/CharSelect/Auth/Expiry.antt =====
-- Authorisations that nobody claims: `char_select_unclaimed_auths_timer_callback` of
-- src/char_select/eqp_char_select.c.
use eqp.Common.{
  ℕ, zero, suc, ◌+◌, ◌≡◌, refl, ap, ◌∙◌, Bool, true, false, ◌&&◌, not, List, length, take, drop,
  swap_remove, Bool-cases, inl, inr, arith, get_elem?_lt, take_all, drop_all, if◌then◌else◌,
}
use eqp.Common.Queues.{
  one, count, count-swap_remove, count-split, count-take_suc, take-swap_remove, length-swap_remove,
}
use eqp.CharSelect.Auth.{Auth, CharSelect, is_old, expire_from, unclaimed_auths_timer_callback}

-- Those that pass and are young.
abbrev pub and_young : (Auth → Bool) → ℕ → Auth → Bool
and_young p time a = p a && not (is_old time a)

abbrev bit : Bool → ℕ
bit b = if b then 1 else 0

and_false : (b : Bool) → (b && not true) ≡ false
and_false true = refl
and_false false = refl

and_true : (b : Bool) → (b && not false) ≡ b
and_true true = refl
and_true false = refl

count-expire_from :
    (p : Auth → Bool) (time left i : ℕ) (auths : List Auth)
    → i + left ≡ length auths
    → count p (expire_from time left i auths)
      ≡ count p (take i auths) + count (and_young p time) (drop i auths)
unfolding expire_from
count-expire_from p time zero i auths h =
    rw (take_all i auths (omega arith), drop_all i auths (omega arith)) (omega arith)
count-expire_from p time (suc left) i auths h =
    let (a, got) = get_elem?_lt auths i (omega arith) in
    let here = count-swap_remove (and_young p time) i a auths got in
    let short = length-swap_remove i a auths got in
    let front = take-swap_remove i i a auths got (omega arith) in
    let q = and_young p time in
    elim (Bool-cases (is_old time a)) [
      | inl old ↦
          let rest = count-expire_from p time left i (swap_remove i auths) (omega arith) in
          let first = count-split q i (swap_remove i auths) in
          let two = count-split q i auths in
          let weight : one q a ≡ 0 = rw old (ap bit (and_false (p a))) in
          let same_p = ap (count p) front in
          let same_q = ap (count q) front in
          rw (expire_from, got, old) (omega (arith, rest, first, two, here, weight, same_p, same_q))
      | inr new ↦
          let rest = count-expire_from p time left (i + 1) auths (omega arith) in
          let next = count-take_suc p i a auths got in
          let next2 = count-take_suc q i a auths got in
          let first = count-split q (i + 1) auths in
          let two = count-split q i auths in
          let weight : one q a ≡ one p a = rw new (ap bit (and_true (p a))) in
          rw (expire_from, got, new) (omega (arith, rest, first, two, next, next2, weight))
    ]

-- After the callback the queue holds, in some order, the authorisations that came less than thirty
-- seconds ago, each as often as before, and no other.
pub unclaimed_auths_timer_callback_lem :
    (time : ℕ) (s : CharSelect) (p : Auth → Bool)
    → count p (unclaimed_auths_timer_callback time s).unclaimed_auths
      ≡ count (λ a. p a && not (is_old time a)) s.unclaimed_auths
unfolding unclaimed_auths_timer_callback
unclaimed_auths_timer_callback_lem time s p =
    count-expire_from p time (length s.unclaimed_auths) 0 s.unclaimed_auths (omega arith)
    ∙ omega arith

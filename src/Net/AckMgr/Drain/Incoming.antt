-- ===== src/Net/AckMgr/Drain/Incoming.antt =====
-- Messages as the client sent them, and the slots that they fill in the queue of
-- src/non_master/net/ack_mgr_trilogy.c.
use mathlib.Core.List.{reverse, reverse-cons, append_assoc, reverse-append}
use eqp.Common.{
  ℕ, suc, ◌<◌, ◌≡◌, refl, sym, ap, ◌∙◌, true, some, List, [], ◌∷◌, ◌++◌, map, length, take, drop,
  ltb, if◌then◌else◌, arith, length-append, drop-length, take-append_of_le, take_all,
}
use eqp.Net.AckMgr.{null, bytes, InputPacket, Delivery, contents_of, gather, input_of}

-- A packet as the client sent it, but for the length of its group.
pub record Fragment : Type 0 where
  pub opcode : ℕ
  pub ack_request : ℕ
  pub payload : List ℕ

-- A message that is there in full: one packet, or the first fragment and the others.
pub data Message : Type 0 where
  single : Fragment → Message
  split : Fragment → List Fragment → Message

abbrev pub buffered : ℕ → Fragment → InputPacket
buffered k f = input_of f.opcode f.ack_request k f.payload

abbrev pub slots_of : Message → List InputPacket
slots_of (single f) = buffered 0 f ∷ []
slots_of (split f fs) = map (buffered (suc (length fs))) (f ∷ fs)

abbrev pub queue_of : List Message → List InputPacket
queue_of [] = []
queue_of (m ∷ ms) = slots_of m ++ queue_of ms

abbrev pub joined : List Fragment → List ℕ
joined [] = []
joined (f ∷ fs) = f.payload ++ joined fs

abbrev pub delivery_of : Message → Delivery
delivery_of (single f) = record { opcode = f.opcode; payload = f.payload }
delivery_of (split f fs) = record { opcode = f.opcode; payload = joined (f ∷ fs) }

abbrev pub IsNumbered : List Fragment → Type 0
IsNumbered [] = Unit {0}
IsNumbered (f ∷ fs) = (0 < f.ack_request) × IsNumbered fs

pub contents_of-payload :
    (xs : List ℕ) → contents_of (if ltb 0 (length xs) then bytes xs else null) ≡ some xs
contents_of-payload [] = refl
contents_of-payload (x ∷ xs) = let e : ltb 0 (suc (length xs)) ≡ true = ground arith in rw (e)

gather-cons :
    (p : InputPacket) (ps : List InputPacket) {bs cs : List ℕ}
    → contents_of p.data_ ≡ some bs
    → gather ps ≡ some cs
    → gather (p ∷ ps) ≡ some (bs ++ cs)
gather-cons p ps e g = rw (gather, e, g)

pub gather-map : (k : ℕ) (fs : List Fragment) → gather (map (buffered k) fs) ≡ some (joined fs)
gather-map k [] = refl
gather-map k (f ∷ fs) =
    gather-cons (buffered k f) (map (buffered k) fs) (contents_of-payload f.payload)
      (gather-map k fs)

pub length-map : {A B : Type 0} (g : A → B) (xs : List A) → length (map g xs) ≡ length xs
length-map g [] = refl
length-map g (x ∷ xs) = ap suc (length-map g xs)

module _ {A : Type 0} where
  pub length-reverse : (xs : List A) → length (reverse xs) ≡ length xs
  length-reverse [] = refl
  length-reverse (x ∷ xs) =
      ap length (reverse-cons x xs)
      ∙ length-append (reverse xs) (x ∷ [])
      ∙ rw (length-reverse xs) (omega arith)

  pub cons-reverse : (x : A) (ys : List A) → x ∷ reverse ys ≡ reverse (ys ++ x ∷ [])
  cons-reverse x ys = sym (reverse-append ys (x ∷ []))

  pub take_top : (n : ℕ) (ys zs : List A) → length ys ≡ n → take n (reverse ys ++ zs) ≡ reverse ys
  take_top n ys zs e =
      take-append_of_le n (reverse ys) zs (rw (length-reverse ys, e) (omega arith))
      ∙ take_all n (reverse ys) (rw (length-reverse ys, e) (omega arith))

  pub drop_top : (n : ℕ) (ys zs : List A) → length ys ≡ n → drop n (reverse ys ++ zs) ≡ zs
  drop_top n ys zs e = rw (sym e, sym (length-reverse ys)) (drop-length (reverse ys) zs)

pub joined-append : (fs gs : List Fragment) → joined (fs ++ gs) ≡ joined fs ++ joined gs
joined-append [] gs = refl
joined-append (f ∷ fs) gs =
    ap (λ r. f.payload ++ r) (joined-append fs gs)
    ∙ sym (append_assoc f.payload (joined fs) (joined gs))

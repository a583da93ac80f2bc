-- ===== src/Net/AckMgr/Drain/Group.antt =====
-- The loop of `ack_mgr_trilogy_recv_packet` on one packet and on one group of fragments:
-- src/non_master/net/ack_mgr_trilogy.c.
use mathlib.Core.List.{reverse, append_assoc, map-append, reverse-reverse}
use eqp.Common.{
  ℕ, suc, ◌+◌, ◌%◌, ◌^◌, ◌≤◌, ◌<◌, ◌≡◌, refl, sym, ap, ◌∙◌, true, false, some, List, [], ◌∷◌, ◌++◌,
  map, length, ltb, ◌==◌, arith, length-append, ==_refl,
}
use eqp.Net.AckMgr.{
  InputPacket, Delivery, Loop, gather, first_opcode, free, next16, complete_input_packet,
  complete_input_fragments, round, run,
}
use eqp.Net.AckMgr.Drain.Incoming.{
  Fragment, buffered, joined, IsNumbered, contents_of-payload, gather-map, length-map,
  length-reverse, cons-reverse, take_top, drop_top, joined-append,
}

abbrev pub loop : List InputPacket → (diff frags len next : ℕ) → List Delivery → Loop
loop seen diff frags len next out = record {
  seen = seen;
  diff = diff;
  frags = frags;
  length_ = len;
  next_ack = next;
  out = out;
}

abbrev opcode_of : List Fragment → ℕ
opcode_of [] = 0
opcode_of (f ∷ _) = f.opcode

abbrev delivery_from : List Fragment → Delivery
delivery_from fs = record { opcode = opcode_of fs; payload = joined fs }

first_opcode-map : (k : ℕ) (fs : List Fragment) → first_opcode (map (buffered k) fs) ≡ opcode_of fs
first_opcode-map k [] = refl
first_opcode-map k (f ∷ fs) = refl

complete_lem :
    (p : InputPacket) (st : Loop) (ys base : List InputPacket) {bs : List ℕ}
    → p ∷ st.seen ≡ reverse ys ++ base
    → length ys ≡ st.frags
    → gather ys ≡ some bs
    → length bs ≡ st.length_
    → complete_input_fragments p st
      ≡ some (
          loop
            (map free (reverse ys) ++ base)
            (st.diff + st.frags)
            0
            0
            (next16 p.ack_request)
            (st.out ++ record { opcode = first_opcode ys; payload = bs } ∷ []))
unfolding complete_input_fragments
complete_lem p st ys base top e g z =
    let t = take_top st.frags ys base e in
    let d = drop_top st.frags ys base e in
    let r = reverse-reverse ys in
    rw (complete_input_fragments, top, t, r, g, z, ==_refl st.length_, top, t, d, r)

-- The loop when the fragments `done` of a group have been counted.
abbrev counting : ℕ → List Fragment → List InputPacket → (diff next : ℕ) → List Delivery → Loop
counting k done base diff next out =
    loop (reverse (map (buffered k) done) ++ base) diff (length done) (length (joined done)) next
      out

length-joined :
    (done : List Fragment) (f : Fragment)
    → length (joined (done ++ f ∷ [])) ≡ length (joined done) + length f.payload
length-joined done f =
    rw
      (
        joined-append done (f ∷ []),
        length-append (joined done) (f.payload ++ []),
        length-append f.payload [],
      )
      (omega arith)

push_reverse :
    (k : ℕ) (done : List Fragment) (f : Fragment) (base : List InputPacket)
    → buffered k f ∷ (reverse (map (buffered k) done) ++ base)
      ≡ reverse (map (buffered k) (done ++ f ∷ [])) ++ base
push_reverse k done f base =
    ap (λ r. r ++ base)
      (cons-reverse (buffered k f) (map (buffered k) done)
        ∙ ap reverse (sym (map-append (buffered k) done (f ∷ []))))

module _ (n k : ℕ) (done : List Fragment) (f : Fragment) (base : List InputPacket) (diff next : ℕ)
    (out : List Delivery) where
  pub sum :
      length (joined (done ++ f ∷ [])) < 2 ^ 32
      → (length (joined done) + length f.payload) % 2 ^ 32 ≡ length (joined (done ++ f ∷ []))
  sum w = ground (arith, length-joined done f)

  count : length done + 1 ≡ length (done ++ f ∷ [])
  count = sym (length-append done (f ∷ []))

  round_next :
      k ≤ n
      → length done + 1 < k
      → 0 < f.ack_request
      → length (joined (done ++ f ∷ [])) < 2 ^ 32
      → round n (buffered k f) (counting k done base diff next out)
        ≡ some (some (counting k (done ++ f ∷ []) base diff next out))
  unfolding round
  round_next h l a w =
      let a0 : (f.ack_request == 0) ≡ false = ground arith in
      let k0 : (k == 0) ≡ false = ground arith in
      let fits : ltb n k ≡ false = ground arith in
      let more : (length done + 1 == k) ≡ false = ground arith in
      rw (round, a0, k0, fits, more, push_reverse k done f base, sum w, count)

  round_last :
      k ≤ n
      → length done + 1 ≡ k
      → 0 < f.ack_request
      → length (joined (done ++ f ∷ [])) < 2 ^ 32
      → (seen : List InputPacket) × (length seen ≡ k + length base)
        × (round n (buffered k f) (counting k done base diff next out)
            ≡ some (
                some (
                  loop seen
                    (diff + k)
                    0
                    0
                    (next16 f.ack_request)
                    (out ++ delivery_from (done ++ f ∷ []) ∷ []))))
  unfolding round
  round_last h l a w =
      let group = done ++ f ∷ [] in
      let ys = map (buffered k) group in
      let a0 : (f.ack_request == 0) ≡ false = ground arith in
      let k0 : (k == 0) ≡ false = ground arith in
      let fits : ltb n k ≡ false = ground arith in
      let st =
        loop (reverse (map (buffered k) done) ++ base) diff k (length (joined group)) next out in
      let size : length ys ≡ k =
        length-map (buffered k) group ∙ length-append done (f ∷ []) ∙ omega arith in
      (
        map free (reverse ys) ++ base,
        length-append (map free (reverse ys)) base
            ∙ rw (length-map free (reverse ys), length-reverse ys, size),
        rw (round, a0, k0, fits, l, ==_refl k, sum w)
            (rw (
              complete_lem (buffered k f) st ys base (push_reverse k done f base) size
                  (gather-map k group) refl,
              first_opcode-map k group,
            )),
      )

abbrev pub last_ack : Fragment → List Fragment → ℕ
last_ack f [] = f.ack_request
last_ack f (g ∷ gs) = last_ack g gs

joined_below :
    (done : List Fragment) (f : Fragment) (fs : List Fragment)
    → length (joined (done ++ f ∷ [])) ≤ length (joined (done ++ f ∷ fs))
joined_below done f fs =
    rw
      (
        length-joined done f,
        joined-append done (f ∷ fs),
        length-append (joined done) (f.payload ++ joined fs),
        length-append f.payload (joined fs),
      )
      (omega arith)

pub run-cons :
    (n : ℕ) (p : InputPacket) (ps : List InputPacket) (st : Loop) {next : Loop}
    → round n p st ≡ some (some next)
    → run n (p ∷ ps) st ≡ run n ps next
unfolding run
run-cons n p ps st e = rw (run, e)

pub run-stop :
    (n : ℕ) (p : InputPacket) (ps : List InputPacket) (st : Loop)
    → p.ack_request ≡ 0
    → run n (p ∷ ps) st ≡ some (st, p ∷ ps)
unfolding run round
run-stop n p ps st e = let z : (p.ack_request == 0) ≡ true = rw e refl in rw (run, round, z)

pub round_single :
    (n : ℕ) (f : Fragment) (seen : List InputPacket) (diff next : ℕ) (out : List Delivery)
    → 0 < f.ack_request
    → round n (buffered 0 f) (loop seen diff 0 0 next out)
      ≡ some (
          some (
            loop
              (free (buffered 0 f) ∷ seen)
              (diff + 1)
              0
              0
              (next16 f.ack_request)
              (out ++ record { opcode = f.opcode; payload = f.payload } ∷ [])))
unfolding round complete_input_packet
round_single n f seen diff next out a =
    let a0 : (f.ack_request == 0) ≡ false = ground arith in
    rw (round, a0, complete_input_packet, contents_of-payload f.payload)

-- From a group of which `done` is counted to its end.
pub run_fragments :
    (n k : ℕ) (f : Fragment) (fs : List Fragment) (more : List InputPacket) (done : List Fragment)
    (base : List InputPacket) (diff next : ℕ) (out : List Delivery)
    → k ≤ n
    → length done + suc (length fs) ≡ k
    → IsNumbered (f ∷ fs)
    → length (joined (done ++ f ∷ fs)) < 2 ^ 32
    → (seen : List InputPacket) × (length seen ≡ k + length base)
      × (run n (map (buffered k) (f ∷ fs) ++ more) (counting k done base diff next out)
          ≡ run n more (
              loop seen
                (diff + k)
                0
                0
                (next16 (last_ack f fs))
                (out ++ delivery_from (done ++ f ∷ fs) ∷ [])))
run_fragments n k f [] more done base diff next out h l (a, _) w =
    let (seen, size, e) = round_last n k done f base diff next out h l a w in
    (seen, size, run-cons n (buffered k f) more _ e)
run_fragments n k f (g ∷ fs) more done base diff next out h l (a, bs) w =
    let assoc = append_assoc done (f ∷ []) (g ∷ fs) in
    let below = joined_below done f (g ∷ fs) in
    let now = round_next n k done f base diff next out h (omega arith) a (omega arith) in
    let (seen, size, e) =
      run_fragments n k g fs more (done ++ f ∷ []) base diff next out h
        (rw (length-append done (f ∷ [])) (omega arith)) bs (rw assoc w) in
    (
      seen,
      size,
      run-cons n (buffered k f) (map (buffered k) (g ∷ fs) ++ more) _ now ∙ rw (e, assoc),
    )

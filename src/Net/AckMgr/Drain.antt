-- ===== src/Net/AckMgr/Drain.antt =====
-- What `ack_mgr_trilogy_recv_packet` delivers from a queue of complete packets.
mod Group
mod Incoming
use mathlib.Core.List.{
  reverse, reverse-cons, append_assoc, map-append, reverse-append, reverse-reverse, append-nil,
}
use eqp.Common.{
  ℕ, suc, ◌+◌, ◌%◌, ◌^◌, ◌≤◌, ◌<◌, ◌≡◌, refl, sym, ap, ◌∙◌, true, false, some, List, [], ◌∷◌, ◌++◌,
  map, length, take, drop, ltb, ◌==◌, if◌then◌else◌, arith, inl, inr, Bool-cases, length-append,
  drop-length, take-append_of_le, take_all, ==_refl,
}
use eqp.Net.AckMgr.{
  null, bytes, InputPacket, Delivery, AckMgr, Loop, contents_of, gather, input_of, first_opcode,
  free, next16, complete_input_packet, complete_input_fragments, round, run, drain,
}
pub use eqp.Net.AckMgr.Drain.Incoming.{
  Fragment, Message, single, split, buffered, slots_of, queue_of, delivery_of, joined,
}
use eqp.Net.AckMgr.Drain.Incoming.{IsNumbered, length-map, drop_top}
use eqp.Net.AckMgr.Drain.Group.{
  loop, sum, last_ack, run-cons, run-stop, round_single, run_fragments,
}

-- What the loop asks of a message: no sequence number 0, no more fragments than slots.
abbrev pub IsComplete : ℕ → Message → Type 0
IsComplete n (single f) = 0 < f.ack_request
IsComplete n (split f fs) =
    IsNumbered (f ∷ fs) × (suc (length fs) ≤ n) × (length (joined (f ∷ fs)) < 2 ^ 32)

abbrev pub AllComplete : ℕ → List Message → Type 0
AllComplete n [] = Unit {0}
AllComplete n (m ∷ ms) = IsComplete n m × AllComplete n ms

abbrev pub message_ack : Message → ℕ
message_ack (single f) = f.ack_request
message_ack (split f fs) = last_ack f fs

-- The sequence number expected after the messages, `next` before them.
abbrev pub expected : ℕ → List Message → ℕ
expected next [] = next
expected next (m ∷ ms) = expected (next16 (message_ack m)) ms

-- Whatever is left begins with an empty slot.
abbrev pub IsStopped : List InputPacket → Type 0
IsStopped [] = Unit {0}
IsStopped (p ∷ ps) = p.ack_request ≡ 0

run-queue :
    (n : ℕ) (ms : List Message) (rest seen : List InputPacket) (next : ℕ) (out : List Delivery)
    → AllComplete n ms
    → IsStopped rest
    → (seen' : List InputPacket) × (length seen' ≡ length (queue_of ms) + length seen)
      × (run n (queue_of ms ++ rest) (loop seen (length seen) 0 0 next out)
          ≡ some
              (loop seen' (length seen') 0 0 (expected next ms) (out ++ map delivery_of ms), rest))
unfolding run
run-queue n [] [] seen next out c s = (seen, omega arith, rw (run, append-nil out))
run-queue n [] (p ∷ ps) seen next out c s = (
  seen,
  omega arith,
  run-stop n p ps (loop seen (length seen) 0 0 next out) s ∙ rw (append-nil out),
)
run-queue n (single f ∷ ms) rest seen next out (c, cs) s =
    let d = delivery_of (single f) in
    let top = free (buffered 0 f) ∷ seen in
    let (seen', size, e) = run-queue n ms rest top (next16 f.ack_request) (out ++ d ∷ []) cs s in
    let one : length seen + 1 ≡ length top = omega arith in
    (
      seen',
      size ∙ omega arith,
      run-cons n (buffered 0 f) (queue_of ms ++ rest) _
            (round_single n f seen (length seen) next out c)
          ∙ rw (one, e, append_assoc out (d ∷ []) (map delivery_of ms)),
    )
run-queue n (split f fs ∷ ms) rest seen next out ((num, h, w), cs) s =
    let k = suc (length fs) in
    let d = delivery_of (split f fs) in
    let slots = map (buffered k) (f ∷ fs) in
    let (top, high, e) =
      run_fragments n k f fs (queue_of ms ++ rest) [] seen (length seen) next out h (omega arith)
        num w in
    let (seen', size, e') = run-queue n ms rest top (next16 (last_ack f fs)) (out ++ d ∷ []) cs s in
    let sum : length seen + k ≡ length top = omega arith in
    (
      seen',
      size ∙ rw (length-append slots (queue_of ms), length-map (buffered k) (f ∷ fs)) (omega arith),
      rw (append_assoc slots (queue_of ms) rest)
          (e ∙ rw (sum, e', append_assoc out (d ∷ []) (map delivery_of ms))),
    )

no_messages : (next : ℕ) (ms : List Message) → length (queue_of ms) ≡ 0 → expected next ms ≡ next
no_messages next [] e = refl
no_messages next (single f ∷ ms) e = absurd (omega arith)
no_messages next (split f fs ∷ ms) e = absurd (omega arith)

top-empty : (seen rest : List InputPacket) → length seen ≡ 0 → reverse seen ++ rest ≡ rest
top-empty [] rest e = refl
top-empty (p ∷ ps) rest e = absurd (omega arith)

-- From a queue of complete messages, with an empty slot or nothing behind them, exactly these
-- messages are delivered, in order and the fragments joined; what is left of the queue begins at the
-- empty slot, and the number expected next is the one after the last message.
pub drain-queue :
    (s : AckMgr) (next : ℕ) (ms : List Message) (rest : List InputPacket)
    → s.input_packets ≡ queue_of ms ++ rest
    → AllComplete (length s.input_packets) ms
    → IsStopped rest
    → s.next_ack_request_expected ≡ next
    → drain s next
      ≡ some (
        record s { next_ack_request_expected = expected next ms; input_packets = rest },
        map delivery_of ms,
      )
unfolding drain
drain-queue s next ms rest q c stop e =
    let n = length s.input_packets in
    let (seen, size, done) = run-queue n ms rest [] next [] c stop in
    let ran : run n s.input_packets (loop [] 0 0 0 next [])
        ≡ some (loop seen (length seen) 0 0 (expected next ms) (map delivery_of ms), rest) =
      ap (λ r. run n r (loop [] 0 0 0 next [])) q ∙ done in
    elim (Bool-cases (ltb 0 (length seen))) [
      | inl some_seen ↦
          let all = drop_top (length seen) seen rest refl in rw (drain, ran, some_seen, all)
      | inr none_seen ↦
          let z : length seen ≡ 0 = ground arith in
          rw (drain, ran, none_seen, top-empty seen rest z, no_messages next ms (omega arith), e)
    ]

-- ===== src/CharSelect/Tests.antt =====
-- A client and its authorisation, a character, a request, and some addresses.
use eqp.Common.{
  ℕ, zero, suc, ◌<◌, ◌+◌, ◌*◌, ◌^◌, ◌≡◌, refl, true, false, not, ◌&&◌, List, [], ◌∷◌, length,
  replicate, get_or, arith, AreBelow,
}
use eqp.Common.Queues.{In, count}
use eqp.Aligned.Defs.{ok}
use eqp.Packets.Struct.{start}
use eqp.CharSelect.Auth.{
  Auth, CharSelect, handle_client_auth, login_info, unclaimed_auths_timer_callback, is_old,
}
use eqp.CharSelect.Auth.Steps.{Steps, client_auth, login, done, then_, Settled, Steps-Settled}
use eqp.CharSelect.Auth.Meet.{meet_lem}
use eqp.CharSelect.Auth.Expiry.{unclaimed_auths_timer_callback_lem}
use eqp.CharSelect.LocalAddress.{is_ip_address_local, is_ip_address_local_lem}
use eqp.CharSelect.Params.{params_are_valid}
use eqp.CharSelect.Params.Laws.{params_are_valid_lem}
use eqp.CharSelect.Replies.{wear_change_of}
use eqp.CharSelect.Client.{Session, reply, recv_packet, handle_op_wear_change}
use eqp.CharSelect.Client.Laws.{recv_packet_unauthed, handle_op_wear_change_lem}

abbrev blank : Auth
blank = record {
  account_id = 0;
  is_local = false;
  timestamp = 0;
  account_status = 0;
  is_locked = false;
  account_name = [];
  session_key = [];
}

abbrev auth_of_five : Auth
auth_of_five = record blank { account_id = 5; session_key = 7 ∷ 8 ∷ []; timestamp = 1 }

abbrev empty : CharSelect
empty = record {
  clients = λ p. record { auth = blank; is_name_approved = false; is_near = true };
  unclaimed_auths = [];
  unauthed_clients = [];
  approved = [];
}

nowhere : (p : ℕ) → ¬ In p []
nowhere p (i, e) = absurd (cc)

empty-Settled : Settled empty
empty-Settled a p (i, e) there = absurd (cc)

abbrev later : CharSelect
later = login_info 3 6 [] (handle_client_auth 100 auth_of_five empty)

abbrev two_steps : Steps empty later
unfolding handle_client_auth
two_steps = then_ (client_auth 100 auth_of_five) (then_ (login 3 6 [] (nowhere 3)) done)

queues_example : Settled later
queues_example = Steps-Settled two_steps empty-Settled

meet_example :
    let t = login_info 3 5 (7 ∷ 8 ∷ []) (handle_client_auth 100 auth_of_five empty) in
    let u = handle_client_auth 100 auth_of_five (login_info 3 5 (7 ∷ 8 ∷ []) empty) in
    ((t.clients 3).auth ≡ record auth_of_five { timestamp = 100; is_local = true })
    × (t.approved ≡ 3 ∷ [])
    × ((u.clients 3).auth ≡ record auth_of_five { is_local = true })
    × (u.approved ≡ 3 ∷ [])
meet_example =
    meet_lem empty 3 100 auth_of_five (7 ∷ 8 ∷ []) refl (λ q h. absurd (nowhere q h))
      (λ a h. absurd (let (i, e) = h in cc))

abbrev waiting : CharSelect
waiting = record empty {
  unclaimed_auths =
      record auth_of_five { timestamp = 10 } ∷ record auth_of_five { timestamp = 39000 } ∷ [];
}

expiry_example :
    count (λ a. true) (unclaimed_auths_timer_callback 40000 waiting).unclaimed_auths
    ≡ count (λ a. true && not (is_old 40000 a)) waiting.unclaimed_auths
expiry_example = unclaimed_auths_timer_callback_lem 40000 waiting (λ a. true)

address_example : is_ip_address_local (172 + 20 * 2 ^ 8 + 3 * 2 ^ 16 + 4 * 2 ^ 24) ≡ true
address_example =
    is_ip_address_local_lem 172 20 3 4 (omega arith) (omega arith) (omega arith) (omega arith)

-- A human warrior with all 25 points in strength.
abbrev warrior : List ℕ
warrior = 110 ∷ 85 ∷ 75 ∷ 75 ∷ 75 ∷ 80 ∷ 75 ∷ []

abbrev warrior-AreBelow : AreBelow 256 warrior
warrior-AreBelow = (
  omega arith,
  (omega arith, (omega arith, (omega arith, (omega arith, (omega arith, (omega arith, tt)))))),
)

params_example : params_are_valid 1 1 warrior ≡ true
params_example = params_are_valid_lem 1 1 warrior (omega arith) (omega arith) refl warrior-AreBelow

abbrev stranger : Session
stranger = record {
  is_authed = false;
  is_name_approved = false;
  account_id = 0;
  session_key = [];
  weapon_materials = replicate 10 (3 ∷ 4 ∷ []);
}

unauthed_example :
    recv_packet (λ t. 0) 0x205a stranger (start 2 (65 ∷ 0 ∷ []))
    ≡ ok (stranger, []) (start 2 (65 ∷ 0 ∷ []))
unauthed_example =
    recv_packet_unauthed (λ t. 0) 0x205a stranger (start 2 (65 ∷ 0 ∷ [])) refl refl refl

abbrev known : Session
known = record stranger { is_authed = true }

abbrev row : List ℕ
row = 3 ∷ 4 ∷ []

rows : (n i : ℕ) → i < n → length {A = ℕ} (get_or (replicate n row) i []) ≡ 2
rows zero i h = absurd (omega arith)
rows (suc n) zero h = refl
rows (suc n) (suc i) h = rows n i (omega arith)

abbrev request : List ℕ
request = 0 ∷ 0 ∷ 0 ∷ 0 ∷ 8 ∷ 9 ∷ 0 ∷ 0 ∷ 0 ∷ 0 ∷ 0 ∷ 0 ∷ 0 ∷ 0 ∷ 0 ∷ 0 ∷ []

wear_change_example :
    handle_op_wear_change known (start 16 request)
    ≡ ok
        (known, reply (wear_change_of 8 4) ∷ [])
        (record { cursor = 14; length_ = 16; buffer = request })
wear_change_example =
    handle_op_wear_change_lem known 0 0 0 0 8 9 0 0 0 0 0 0 0 0 0 0 refl refl (rows 10)

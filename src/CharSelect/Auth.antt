-- ===== src/CharSelect/Auth.antt =====
-- How authorisations from the login server meet the clients they are for: `unclaimedAuths` and
-- `unauthedClients` of src/char_select/eqp_char_select.c.
pub mod Expiry
pub mod Meet
pub mod Steps
use eqp.Common.{
  same_text, update, same_text-eq, same_text_refl, ℕ, zero, ◌+◌, ◌-◌, ◌^◌, ◌%◌, ◌<◌, ◌≡◌, Bool,
  true, false, ◌&&◌, not, Option, none, some, List, [], ◌∷◌, ◌++◌, length, ltb, leb, ◌==◌,
  if◌then◌else◌, get_elem?, swap_remove, suc, take,
}
use eqp.Common.Queues.{find}

-- `CharSelectAuth`, less the pointer to the server.
pub record Auth : Type 0 where
  pub account_id : ℕ
  pub is_local : Bool
  pub timestamp : ℕ
  pub account_status : ℕ
  pub is_locked : Bool
  pub account_name : List ℕ
  pub session_key : List ℕ

-- A client object. `is_near` is what `char_select_is_ip_address_local` says of its address.
pub record Client : Type 0 where
  pub auth : Auth
  pub is_name_approved : Bool
  pub is_near : Bool

-- Client objects by their pointer; `approved` are the clients that `cs_client_trilogy_on_auth` was
-- called for, in order.
pub record CharSelect : Type 0 where
  pub clients : ℕ → Client
  pub unclaimed_auths : List Auth
  pub unauthed_clients : List ℕ
  pub approved : List ℕ

-- The test of both searches.
abbrev pub matches : Auth → Auth → Bool
matches a b = a.account_id == b.account_id && same_text a.session_key b.session_key

-- `char_select_client_is_authed`
abbrev pub is_authed : Client → Bool
is_authed c = not (c.auth.timestamp == 0)

-- `char_select_client_set_auth`
unfoldable pub set_auth : ℕ → Auth → CharSelect → CharSelect
set_auth p auth s =
    let c = s.clients p in
    record s {
      clients = update s.clients p (record c { auth = record auth { is_local = c.is_near } });
      approved = s.approved ++ p ∷ [];
    }

unfoldable pub handle_client_auth : ℕ → Auth → CharSelect → CharSelect
handle_client_auth now auth s =
    elim (find (λ p. matches (s.clients p).auth auth) s.unauthed_clients) [
      | some (i, p) ↦
          let t = set_auth p auth s in
          record t { unauthed_clients = swap_remove i t.unauthed_clients }
      | none ↦ record s {
        unclaimed_auths = s.unclaimed_auths ++ record auth { timestamp = now } ∷ [];
      }
    ]

unfoldable pub handle_unauthed_client : ℕ → CharSelect → CharSelect
handle_unauthed_client p s = elim (find (λ a. matches a (s.clients p).auth) s.unclaimed_auths) [
  | some (i, a) ↦
      let t = set_auth p a s in record t { unclaimed_auths = swap_remove i t.unclaimed_auths }
  | none ↦ record s { unauthed_clients = s.unauthed_clients ++ p ∷ [] }
]

-- `char_select_remove_client_from_unauthed_list`
unfoldable pub remove_client_from_unauthed_list : ℕ → CharSelect → CharSelect
remove_client_from_unauthed_list p s = elim (find (λ q. q == p) s.unauthed_clients) [
  | some (i, q) ↦ record s { unauthed_clients = swap_remove i s.unauthed_clients }
  | none ↦ s
]

-- `EQP_CHAR_SELECT_UNCLAIMED_AUTHS_TIMEOUT`, and the test of the timer's callback in `uint64_t`.
abbrev pub timeout : ℕ
timeout = 30000

abbrev pub is_old : ℕ → Auth → Bool
is_old time a = leb timeout ((time + 2 ^ 64 - a.timestamp) % 2 ^ 64)

-- The loop of `char_select_unclaimed_auths_timer_callback` from `i` on, where `left` is `n - i`.
unfoldable pub expire_from : (time left i : ℕ) → List Auth → List Auth
expire_from time zero i auths = auths
expire_from time (suc left) i auths = elim (get_elem? auths i) [
  | none ↦ auths
  | some a ↦
      if is_old time a
      then expire_from time left i (swap_remove i auths)
      else expire_from time left (i + 1) auths
]

unfoldable pub unclaimed_auths_timer_callback : ℕ → CharSelect → CharSelect
unclaimed_auths_timer_callback time s = record s {
  unclaimed_auths = expire_from time (length s.unclaimed_auths) 0 s.unclaimed_auths;
}

-- The end of `cs_trilogy_handle_op_login_info` (src/char_select/char_select_client_trilogy.c): what
-- the client says of itself, the number behind "LS#" and the key, cut to 31 bytes, and the search for it.
unfoldable pub login_info : (p account_id : ℕ) → List ℕ → CharSelect → CharSelect
login_info p account_id session_key s =
    let c = s.clients p in
    let auth = record c.auth { account_id = account_id; session_key = take 31 session_key } in
    handle_unauthed_client p (record s { clients = update s.clients p (record c { auth = auth }) })

-- `char_select_client_query_account_id_callback` and `..._insert_account_id_callback`: the number of
-- the account in the database takes the place of the login server's.
unfoldable pub on_account_id : (p account_id : ℕ) → CharSelect → CharSelect
on_account_id p account_id s =
    let c = s.clients p in
    record s {
      clients = update s.clients p (record c { auth = record c.auth { account_id = account_id } });
    }

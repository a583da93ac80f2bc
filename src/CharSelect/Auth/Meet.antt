-- ===== src/CharSelect/Auth/Meet.antt =====
-- A client and its authorisation, in either order: `char_select_handle_client_auth` and
-- `char_select_handle_unauthed_client` of src/char_select/eqp_char_select.c.
use eqp.Common.{
  List, take, update_self, update_other, update, same_text_refl, ℕ, ◌≡◌, refl, sym, ap, ◌∙◌, true,
  false, [], ◌∷◌, ◌++◌, ◌==◌, inl, inr, ==_refl, ==_iff, Bool-cases,
}
use eqp.Common.Queues.{find-nobody, find-only, In, In-append_one, In-last}
use eqp.CharSelect.Auth.{
  Auth, Client, CharSelect, matches, set_auth, handle_client_auth, handle_unauthed_client,
  login_info,
}
use eqp.CharSelect.Auth.Steps.{client_auth_waits, client_auth_meets, client_waits, client_meets}

-- The client that an authorisation has been given to.
set_auth_lem :
    (p : ℕ) (a : Auth) (s : CharSelect)
    → ((set_auth p a s).clients p).auth ≡ record a { is_local = (s.clients p).is_near }
unfolding set_auth
set_auth_lem p a s = ap (λ c. c.auth) (update_self s.clients p _)

matches_refl : (a : Auth) → matches a a ≡ true
matches_refl a = rw (==_refl a.account_id, same_text_refl a.session_key) refl

-- The client after it has said who it is, and the server then.
abbrev named : ℕ → Auth → CharSelect → Client
named p auth s =
    let c = s.clients p in
    record c {
      auth = record c.auth { account_id = auth.account_id; session_key = auth.session_key };
    }

client_finds :
    (p : ℕ) (w : Auth) (s : CharSelect)
    → ((a : Auth) → In a s.unclaimed_auths → matches a (s.clients p).auth ≡ true → a ≡ w)
    → In w s.unclaimed_auths
    → matches w (s.clients p).auth ≡ true
    → let t = handle_unauthed_client p s in
      ((t.clients p).auth ≡ record w { is_local = (s.clients p).is_near })
      × (t.approved ≡ s.approved ++ p ∷ [])
unfolding set_auth
client_finds p w s only there passes =
    let (i, found) =
      find-only (λ a. matches a (s.clients p).auth) s.unclaimed_auths w only there passes in
    let e = client_meets p s i w found in
    (ap (λ t. (t.clients p).auth) e ∙ set_auth_lem p w s, ap (λ t. t.approved) e)

auth_finds :
    (p now : ℕ) (w : Auth) (s : CharSelect)
    → ((q : ℕ) → In q s.unauthed_clients → matches (s.clients q).auth w ≡ true → q ≡ p)
    → In p s.unauthed_clients
    → matches (s.clients p).auth w ≡ true
    → let t = handle_client_auth now w s in
      ((t.clients p).auth ≡ record w { is_local = (s.clients p).is_near })
      × (t.approved ≡ s.approved ++ p ∷ [])
unfolding set_auth
auth_finds p now w s only there passes =
    let (i, found) =
      find-only (λ q. matches (s.clients q).auth w) s.unauthed_clients p only there passes in
    let e = client_auth_meets now w s i p found in
    (ap (λ t. (t.clients p).auth) e ∙ set_auth_lem p w s, ap (λ t. t.approved) e)

-- What is true and false at once is nothing.
module _ (s : CharSelect) (p now : ℕ) (auth : Auth) (key : List ℕ)
    (cut : take 31 key ≡ auth.session_key)
    (nobody : (q : ℕ) → In q s.unauthed_clients → matches (s.clients q).auth auth ≡ false)
    (nothing : (a : Auth) → In a s.unclaimed_auths → matches a auth ≡ false) where
  named_clients : update s.clients p (named p auth s) p ≡ named p auth s
  named_clients = update_self s.clients p (named p auth s)

  auth_then_login :
      let t = login_info p auth.account_id key (handle_client_auth now auth s) in
      ((t.clients p).auth ≡ record auth { timestamp = now; is_local = (s.clients p).is_near })
      × (t.approved ≡ s.approved ++ p ∷ [])
  unfolding login_info
  auth_then_login =
      let new = record auth { timestamp = now } in
      let t = record s {
        clients = update s.clients p (named p auth s);
        unclaimed_auths = s.unclaimed_auths ++ new ∷ [];
      } in
      let waits = client_auth_waits now auth s (find-nobody _ s.unauthed_clients nobody) in
      let named_key : (a : Auth) → matches a (t.clients p).auth ≡ matches a auth =
        λ a. ap (λ c. matches a c.auth) named_clients in
      let only : (a : Auth)
          → In a t.unclaimed_auths
          → matches a (t.clients p).auth ≡ true
          → a ≡ new =
        λ a h k. elim (In-append_one a s.unclaimed_auths new h) [
          | inl there ↦ absurd (let no = nothing a there in let e = named_key a in cc)
          | inr same ↦ same
        ] in
      let found =
        client_finds p new t only (In-last s.unclaimed_auths new)
          (named_key new ∙ matches_refl auth) in
      rw (cut, waits)
        (
          found.0 ∙ ap (λ c. record auth { timestamp = now; is_local = c.is_near }) named_clients,
          found.1,
        )

  login_then_auth :
      let t = handle_client_auth now auth (login_info p auth.account_id key s) in
      ((t.clients p).auth ≡ record auth { is_local = (s.clients p).is_near })
      × (t.approved ≡ s.approved ++ p ∷ [])
  unfolding login_info
  login_then_auth =
      let t = record s { clients = update s.clients p (named p auth s) } in
      let named_key : (a : Auth) → matches a (t.clients p).auth ≡ matches a auth =
        λ a. ap (λ c. matches a c.auth) named_clients in
      let waits =
        client_waits p t (find-nobody _ s.unclaimed_auths (λ a h. named_key a ∙ nothing a h)) in
      let u = record t { unauthed_clients = s.unauthed_clients ++ p ∷ [] } in
      let only : (q : ℕ)
          → In q u.unauthed_clients
          → matches (u.clients q).auth auth ≡ true
          → q ≡ p =
        λ q h k. elim (In-append_one q s.unauthed_clients p h) [
          | inl there ↦ elim (Bool-cases (p == q)) [
            | inl same ↦ sym ((==_iff p q).0 same)
            | inr other ↦
                let no = nobody q there in
                let e =
                  ap (λ c. matches c.auth auth)
                    (update_other s.clients p q (named p auth s) other) in
                absurd (cc)
          ]
          | inr same ↦ same
        ] in
      let passes = ap (λ c. matches c.auth auth) named_clients ∙ matches_refl auth in
      let found = auth_finds p now auth u only (In-last s.unauthed_clients p) passes in
      rw (cut, waits)
        (found.0 ∙ ap (λ c. record auth { is_local = c.is_near }) named_clients, found.1)

-- A client and an authorisation that nobody else is for, and that is for nobody else, meet whichever
-- comes first, when the key that the client sends, cut to 31 bytes, is the key of the
-- authorisation: in both orders `on_auth` is called for the client, which has the authorisation. When
-- the authorisation comes first its time stamp is the time it came; otherwise it is the one it brought.
pub meet_lem :
    (s : CharSelect) (p now : ℕ) (auth : Auth) (key : List ℕ)
    → take 31 key ≡ auth.session_key
    → ((q : ℕ) → In q s.unauthed_clients → matches (s.clients q).auth auth ≡ false)
    → ((a : Auth) → In a s.unclaimed_auths → matches a auth ≡ false)
    → let near = (s.clients p).is_near in
      let t = login_info p auth.account_id key (handle_client_auth now auth s) in
      let u = handle_client_auth now auth (login_info p auth.account_id key s) in
      ((t.clients p).auth ≡ record auth { timestamp = now; is_local = near })
      × (t.approved ≡ s.approved ++ p ∷ [])
      × ((u.clients p).auth ≡ record auth { is_local = near })
      × (u.approved ≡ s.approved ++ p ∷ [])
meet_lem s p now auth key cut nobody nothing =
    let (a, b) = auth_then_login s p now auth key cut nobody nothing in
    let (c, d) = login_then_auth s p now auth key cut nobody nothing in (a, b, c, d)

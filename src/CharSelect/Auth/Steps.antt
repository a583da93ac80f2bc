-- ===== src/CharSelect/Auth/Steps.antt =====
-- Any sequence of authorisations, logins, time-outs and departures: src/char_select/eqp_char_select.c.
use eqp.Common.{
  update_other, same_text, update, same_text-eq, ℕ, zero, suc, ◌+◌, ◌≡◌, refl, sym, ap, subst, ◌∙◌,
  Bool, true, false, none, some, List, [], ◌∷◌, ◌++◌, length, ◌==◌, get_elem?, swap_remove,
  Bool-cases, Option-cases, inl, inr, ==_iff, both-true, arith,
}
use eqp.Common.Queues.{find, find-none, find-some, In, In-append_one, In-swap_remove}
use eqp.CharSelect.Auth.{
  Auth, Client, CharSelect, matches, set_auth, handle_client_auth, handle_unauthed_client,
  remove_client_from_unauthed_list, expire_from, unclaimed_auths_timer_callback, login_info,
  on_account_id, is_old,
}

-- What the server does with its two queues.
pub data Step : CharSelect → CharSelect → Type 0 where
  client_auth : {s : CharSelect} (now : ℕ) (auth : Auth) → Step s (handle_client_auth now auth s)
  -- from a client that does not wait
  login :
      {s : CharSelect} (p account_id : ℕ) (key : List ℕ)
      → ¬ In p s.unauthed_clients
      → Step s (login_info p account_id key s)
  depart : {s : CharSelect} (p : ℕ) → Step s (remove_client_from_unauthed_list p s)
  expire : {s : CharSelect} (time : ℕ) → Step s (unclaimed_auths_timer_callback time s)
  -- the answer of the database, also for one that does not
  account :
      {s : CharSelect} (p account_id : ℕ)
      → ¬ In p s.unauthed_clients
      → Step s (on_account_id p account_id s)

pub data Steps : CharSelect → CharSelect → Type 0 where
  done : {s : CharSelect} → Steps s s
  then_ : {s t u : CharSelect} → Step s t → Steps t u → Steps s u

-- Nobody waits for an authorisation that is there.
abbrev pub Settled : CharSelect → Type 0
Settled s =
    (a : Auth) (p : ℕ)
    → In a s.unclaimed_auths
    → In p s.unauthed_clients
    → matches (s.clients p).auth a ≡ false

==_sym : (m n : ℕ) → (m == n) ≡ (n == m)
==_sym m n = ground arith

same_text-sym : (xs ys : List ℕ) → same_text xs ys ≡ same_text ys xs
same_text-sym [] [] = refl
same_text-sym [] (y ∷ ys) = refl
same_text-sym (x ∷ xs) [] = refl
same_text-sym (x ∷ xs) (y ∷ ys) = rw (==_sym x y, same_text-sym xs ys) refl

pub matches-sym : (a b : Auth) → matches a b ≡ matches b a
matches-sym a b =
    rw (==_sym a.account_id b.account_id, same_text-sym a.session_key b.session_key) refl

-- Who is matched may be looked for in place of whom it was matched with.
pub matches-same : (a b c : Auth) → matches a b ≡ true → matches a c ≡ matches b c
matches-same a b c h =
    let (x, y) =
      both-true (a.account_id == b.account_id) (same_text a.session_key b.session_key) h in
    rw ((==_iff a.account_id b.account_id).0 x, same_text-eq a.session_key b.session_key y) refl

-- After `set_auth` with what matched, everybody matches what they did.
set_auth-matches :
    (p q : ℕ) (auth a : Auth) (s : CharSelect)
    → matches (s.clients p).auth auth ≡ true
    → matches ((set_auth p auth s).clients q).auth a ≡ matches (s.clients q).auth a
unfolding set_auth
set_auth-matches p q auth a s h = elim (Bool-cases (p == q)) [
  | inl same ↦
      let e : p ≡ q = (==_iff p q).0 same in
      rw same
        (sym (matches-same (s.clients p).auth auth a h) ∙ ap (λ t. matches (s.clients t).auth a) e)
  | inr other ↦ rw other refl
]

-- An authorisation that nobody waits for, and one that somebody waits for.
pub client_auth_waits :
    (now : ℕ) (auth : Auth) (s : CharSelect)
    → find (λ p. matches (s.clients p).auth auth) s.unauthed_clients ≡ none
    → handle_client_auth now auth s
      ≡ record s { unclaimed_auths = s.unclaimed_auths ++ record auth { timestamp = now } ∷ [] }
unfolding handle_client_auth
client_auth_waits now auth s e = rw (handle_client_auth, e) refl

pub client_auth_meets :
    (now : ℕ) (auth : Auth) (s : CharSelect) (i p : ℕ)
    → find (λ p. matches (s.clients p).auth auth) s.unauthed_clients ≡ some (i, p)
    → let t = set_auth p auth s in
      handle_client_auth now auth s
      ≡ record t { unauthed_clients = swap_remove i t.unauthed_clients }
unfolding handle_client_auth
client_auth_meets now auth s i p e = rw (handle_client_auth, e) refl

-- A client whose authorisation is not there, and one whose authorisation is.
pub client_waits :
    (p : ℕ) (s : CharSelect)
    → find (λ a. matches a (s.clients p).auth) s.unclaimed_auths ≡ none
    → handle_unauthed_client p s ≡ record s { unauthed_clients = s.unauthed_clients ++ p ∷ [] }
unfolding handle_unauthed_client
client_waits p s e = rw (handle_unauthed_client, e) refl

pub client_meets :
    (p : ℕ) (s : CharSelect) (i : ℕ) (a : Auth)
    → find (λ a. matches a (s.clients p).auth) s.unclaimed_auths ≡ some (i, a)
    → let t = set_auth p a s in
      handle_unauthed_client p s ≡ record t { unclaimed_auths = swap_remove i t.unclaimed_auths }
unfolding handle_unauthed_client
client_meets p s i a e = rw (handle_unauthed_client, e) refl

client_auth-Settled :
    (now : ℕ) (auth : Auth) (s : CharSelect) → Settled s → Settled (handle_client_auth now auth s)
unfolding set_auth
client_auth-Settled now auth s h =
    let test : ℕ → Bool = λ p. matches (s.clients p).auth auth in
    elim (Option-cases (find test s.unauthed_clients)) [
      | inl nobody ↦ subst Settled (sym (client_auth_waits now auth s nobody)) (λ a p ha hp.
          elim (In-append_one a s.unclaimed_auths (record auth { timestamp = now }) ha) [
            | inl there ↦ h a p there hp
            | inr new ↦
                ap (matches (s.clients p).auth) new ∙ find-none test s.unauthed_clients nobody p hp
          ])
      | inr ((i, p), found) ↦
          let (got, same) = find-some test s.unauthed_clients i p found in
          subst Settled (sym (client_auth_meets now auth s i p found)) (λ a q ha hq.
            set_auth-matches p q auth a s same
            ∙ h a q ha (In-swap_remove q i p s.unauthed_clients got hq))
    ]

-- A client that waits is not the one that is changed.
apart : (p q : ℕ) (ps : List ℕ) → ¬ In p ps → In q ps → (p == q) ≡ false
apart p q ps out there = elim (Bool-cases (p == q)) [
  | inl same ↦ absurd (out (subst (λ t. In t ps) (sym ((==_iff p q).0 same)) there))
  | inr other ↦ other
]

client-Settled :
    (p : ℕ) (c : Client) (s : CharSelect)
    → Settled s
    → ¬ In p s.unauthed_clients
    → Settled (handle_unauthed_client p (record s { clients = update s.clients p c }))
unfolding set_auth
client-Settled p c s h out =
    let t = record s { clients = update s.clients p c } in
    let test : Auth → Bool = λ a. matches a (t.clients p).auth in
    let kept : (a : Auth) (q : ℕ)
        → In a s.unclaimed_auths
        → In q s.unauthed_clients
        → matches (t.clients q).auth a ≡ false =
      λ a q ha hq.
        ap (λ x. matches x.auth a)
          (update_other s.clients p q c (apart p q s.unauthed_clients out hq))
        ∙ h a q ha hq in
    elim (Option-cases (find test s.unclaimed_auths)) [
      | inl nobody ↦ subst Settled (sym (client_waits p t nobody)) (λ a q ha hq.
          elim (In-append_one q s.unauthed_clients p hq) [
            | inl there ↦ kept a q ha there
            | inr new ↦
                ap (λ x. matches (t.clients x).auth a) new
                ∙ matches-sym (t.clients p).auth a
                ∙ find-none test s.unclaimed_auths nobody a ha
          ])
      | inr ((i, a), found) ↦
          let (got, same) = find-some test s.unclaimed_auths i a found in
          subst Settled (sym (client_meets p t i a found)) (λ b q hb hq.
            ap (λ x. matches x.auth b)
              (update_other t.clients p q
                (record {
                  auth = record a { is_local = (t.clients p).is_near };
                  is_name_approved = (t.clients p).is_name_approved;
                  is_near = (t.clients p).is_near;
                })
                (apart p q s.unauthed_clients out hq))
            ∙ kept b q (In-swap_remove b i a s.unclaimed_auths got hb) hq)
    ]

In-expire_from :
    (time left i : ℕ) (auths : List Auth) (a : Auth)
    → In a (expire_from time left i auths)
    → In a auths
unfolding expire_from
In-expire_from time zero i auths a h = h
In-expire_from time (suc left) i auths a h = elim (Option-cases (get_elem? auths i)) [
  | inl e ↦ let k = rw (expire_from, e) at h in k
  | inr (b, e) ↦ elim (Bool-cases (is_old time b)) [
    | inl old ↦
        let k = rw (expire_from, e, old) at h in
        In-swap_remove a i b auths e (In-expire_from time left i (swap_remove i auths) a k)
    | inr new ↦ In-expire_from time left (i + 1) auths a (rw (expire_from, e, new) at h)
  ]
]

Step-Settled : {s t : CharSelect} → Step s t → Settled s → Settled t
unfolding login_info unclaimed_auths_timer_callback on_account_id remove_client_from_unauthed_list
Step-Settled {s} (client_auth now auth) h = client_auth-Settled now auth s h
Step-Settled {s} (login p account_id key out) h = client-Settled p _ s h out
Step-Settled {s} (depart p) h = elim (Option-cases (find (λ q. q == p) s.unauthed_clients)) [
  | inl nobody ↦ rw (remove_client_from_unauthed_list, nobody) h
  | inr ((i, q), found) ↦
      let (got, same) = find-some (λ q. q == p) s.unauthed_clients i q found in
      rw (remove_client_from_unauthed_list, found)
        (λ a r ha hr. h a r ha (In-swap_remove r i q s.unauthed_clients got hr))
]
Step-Settled {s} (expire time) h =
    λ a p ha hp. h a p (In-expire_from time (length s.unclaimed_auths) 0 s.unclaimed_auths a ha) hp
Step-Settled {s} (account p account_id out) h = λ a q ha hq.
    ap (λ x. matches x.auth a) (update_other s.clients p q _ (apart p q s.unauthed_clients out hq))
    ∙ h a q ha hq

-- However authorisations, logins, departures, time-outs and answers of the database follow each
-- other, when a login and an answer only come for a client that does not wait: if no client waits
-- for an authorisation that is there at first, none does afterwards.
pub Steps-Settled : {s t : CharSelect} → Steps s t → Settled s → Settled t
Steps-Settled done h = h
Steps-Settled (then_ one more) h = Steps-Settled more (Step-Settled one h)

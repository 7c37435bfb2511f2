-- ===== src/Sessions/Rotation.antt =====
-- Refresh tokens: each is used once, its successor continues the session, and a second use of it ends
-- the session.
use rubrica_back.Base.{
  ℕ, ◌+◌, ◌<◌, ◌≡◌, ◌≢◌, refl, subst, inl, inr, Option-cases, option_split, if_split, String, Bool,
  true, false, Option, none, some, arith, str_eq_iff, truthy,
}
use rubrica_back.Base.Dict.{lookup_text, lookup_text-insert_text, lookup_text-erase_text}
use rubrica_back.Store.{Instant}
use rubrica_back.Workflow.Requests.{seconds}
use rubrica_back.Sessions.Store.{State, Store, get, add_member}
use rubrica_back.Sessions.Service.{
  refresh_from, refreshed, Settings, Auth, Tokens, user_is_active, revoke_state, rotate_refresh,
  access_state, refresh_state, next_state, refuse_refresh, refresh, current_session,
}

-- What the script leaves: where it does not rotate, the store as it was; where it does, the entries
-- of the next state, and no entry of the old refresh token.
abbrev pub Rotates : Instant → ℕ → ℕ → State → State → String → Bool × Store → Store → Type 0
Rotates now session_ttl access_ttl st next used (false, t) s = t ≡ s
Rotates now session_ttl access_ttl st next used (true, t) s =
    (lookup_text st.session_id t.sessions
      ≡ some (record { value = next; expires_at = now + seconds session_ttl }))
    × (lookup_text next.access_key t.access_keys
        ≡ some (record { value = st.session_id; expires_at = now + seconds access_ttl }))
    × (lookup_text next.refresh_key t.refresh_keys
        ≡ some (record { value = st.session_id; expires_at = now + seconds session_ttl }))
    × (lookup_text used t.used_refresh
        ≡ some (record { value = st.session_id; expires_at = now + seconds session_ttl }))
    × (next.refresh_key ≢ st.refresh_key → lookup_text st.refresh_key t.refresh_keys ≡ none)
    × (get now st.refresh_key s.refresh_keys ≡ some st.session_id)

module _ (now : Instant) (session_ttl access_ttl : ℕ) (st next : State) (used : String)
    (s : Store) where
  add_member_keys :
      (n ttl user : ℕ) (id : String) (t : Store)
      → ((add_member n ttl user id t).sessions ≡ t.sessions)
        × ((add_member n ttl user id t).access_keys ≡ t.access_keys)
        × ((add_member n ttl user id t).refresh_keys ≡ t.refresh_keys)
        × ((add_member n ttl user id t).used_refresh ≡ t.used_refresh)
  unfolding add_member
  add_member_keys n ttl user id t = (refl, refl, refl, refl)

  pub rotate_refresh-Rotates :
      Rotates now session_ttl access_ttl st next used
        (rotate_refresh now session_ttl access_ttl st next used s)
        s
  unfolding rotate_refresh
  rotate_refresh-Rotates =
      grind (arith, add_member_keys, lookup_text-insert_text, lookup_text-erase_text, str_eq_iff)

-- Two calls of `refresh` may both have read the state of the session before one of them runs the
-- script. Where the next refresh token is another one than the old one: if the script rotates for the first, then for the second, at
-- any later instant and with any tokens of its own, it does not, and it changes nothing.
pub rotate_refresh_once :
    (now later : Instant) (session_ttl access_ttl : ℕ) (st next other : State) (used : String)
    (s t : Store)
    → next.refresh_key ≢ st.refresh_key
    → rotate_refresh now session_ttl access_ttl st next used s ≡ (true, t)
    → rotate_refresh later session_ttl access_ttl st other used t ≡ (false, t)
unfolding rotate_refresh
rotate_refresh_once now later session_ttl access_ttl st next other used s t fresh e =
    let first =
      subst (λ r. Rotates now session_ttl access_ttl st next used r s) e
        (rotate_refresh-Rotates now session_ttl access_ttl st next used s) in
    ground (arith, first.4 fresh)

module _ (settings : Settings) where
  open settings use {digest, session_ttl, access_ttl}

  -- What `refresh` has done: where it returns tokens, the old refresh token is used up and the new
  -- access token leads to the session and the subject of the state that the old one led to.
  abbrev pub Refreshes : Instant → String → Tokens → Auth → Option Tokens × Auth → Type 0
  Refreshes now token new w (none, v) = v.tables ≡ w.tables
  Refreshes now token new w (some t, v) =
      (v.tables ≡ w.tables)
      × (refresh_state settings now token v.store ≡ none)
      × (get now (digest token) v.store.used_refresh ≡ some t.session_id)
      × ((st : State) × (refresh_state settings now token w.store ≡ some st)
          × (t.session_id ≡ st.session_id)
          × (current_session settings now new.access_token v ≡ some (st.session_id, st.subject)))

  truthy_kept : (i j : String) → truthy (some i) ≡ some j → i ≡ j
  truthy_kept String.[] j e = absurd (ground (arith, e))
  truthy_kept (String.◌∷◌ c i) j e = ground (arith, e)

  -- The state of a token is the one that its key leads to, by an identifier that is not empty.
  pub refresh_state-stored :
      (now : Instant) (token : String) (st : State) (s : Store)
      → refresh_state settings now token s ≡ some st
      → (st.refresh_key ≡ digest token)
        × (truthy (get now (digest token) s.refresh_keys) ≡ get now (digest token) s.refresh_keys)
  unfolding refresh_state
  refresh_state-stored now token st s e =
      elim (Option-cases (get now (digest token) s.refresh_keys)) [
        | inl missing ↦
            (ground (arith, str_eq_iff st.refresh_key (digest token), e), rw missing refl)
        | inr (id, found) ↦ elim (Option-cases (truthy (some id))) [
          | inl empty ↦ absurd (ground (arith, e))
          | inr (kept, same) ↦ (
            ground (arith, str_eq_iff st.refresh_key (digest token), e),
            rw found (ground (arith, truthy_kept id kept same)),
          )
        ]
      ]

  pub refresh_state_dead :
      (now : Instant) (token : String) (s : Store)
      → lookup_text (digest token) s.refresh_keys ≡ none
      → refresh_state settings now token s ≡ none
  unfolding refresh_state
  refresh_state_dead now token s e = ground (arith, e)

  pub access_state_dead :
      (now : Instant) (token : String) (s : Store)
      → lookup_text (digest token) s.access_keys ≡ none
      → access_state settings now token s ≡ none
  unfolding access_state
  access_state_dead now token s e = ground (arith, e)

  access_state_live :
      (now : Instant) (token : String) (s : Store) (id : String) (st : State) (until end : Instant)
      → lookup_text (digest token) s.access_keys ≡ some (record { value = id; expires_at = until })
      → now < until
      → truthy (some id) ≡ some id
      → lookup_text id s.sessions ≡ some (record { value = st; expires_at = end })
      → now < end
      → st.access_key ≡ digest token
      → access_state settings now token s ≡ some st
  unfolding access_state
  access_state_live now token s id st until end a b c d e f =
      ground (arith, str_eq_iff st.access_key (digest token), a, b, c, d, e, f)

  current_session_live :
      (now : Instant) (token : String) (w : Auth) (st : State)
      → access_state settings now token w.store ≡ some st
      → user_is_active st w.tables ≡ true
      → current_session settings now token w ≡ some (st.session_id, st.subject)
  unfolding current_session
  current_session_live now token w st e active = ground (arith, e, active)

  rotated-Refreshes :
      (now : Instant) (new : Tokens) (token : String) (st : State) (w : Auth) (r : Bool × Store)
      → 0 < session_ttl
      → 0 < access_ttl
      → digest new.refresh_token ≢ digest token
      → refresh_state settings now token w.store ≡ some st
      → user_is_active st w.tables ≡ true
      → Rotates now session_ttl access_ttl st (next_state settings st new) (digest token) r w.store
      → Refreshes now token new w (refreshed settings new st w r)
  unfolding user_is_active
  rotated-Refreshes now new token st w (false, t) p q fresh known active h = refl
  rotated-Refreshes now new token st w (true, t) p q fresh known active h =
      let stored = refresh_state-stored now token st w.store known in
      let old : lookup_text (digest token) t.refresh_keys ≡ none =
        ground (arith, stored.0, h.4, fresh) in
      let named : truthy (some st.session_id) ≡ some st.session_id = ground (arith, stored, h.5) in
      let next = next_state settings st new in
      let found =
        access_state_live now new.access_token t st.session_id next _ _ (h.1) (ground (arith, q))
          named (h.0) (ground (arith, p)) refl in
      (
        refl,
        refresh_state_dead now token t old,
        ground (arith, h.3, p),
        (
          st,
          known,
          refl,
          current_session_live now new.access_token (record w { store = t }) next found active,
        ),
      )

  -- Where the lives of sessions and access tokens are positive and the new refresh token has another
  -- digest than the old one: when `refresh` returns tokens, the old refresh token led to the state of
  -- a session and is used up, and the new access token leads to that session and to the subject of
  -- that state. In any case the users stay as they are.
  pub refresh-Refreshes :
      (now : Instant) (new : Tokens) (token : String) (w : Auth)
      → 0 < session_ttl
      → 0 < access_ttl
      → digest new.refresh_token ≢ digest token
      → Refreshes now token new w (refresh settings now new token w)
  unfolding refresh refresh_from
  refresh-Refreshes now new token w p q fresh =
      option_split (Refreshes now token new w) (refresh_state settings now token w.store)
        (none, record w { store = refuse_refresh settings now token w.store })
        (λ st. refresh_from settings now new token st w) (λ unknown. refl)
        (λ st known.
          if_split (Refreshes now token new w) (user_is_active st w.tables)
            (refreshed settings new st w (
              rotate_refresh now session_ttl access_ttl st (next_state settings st new)
                (digest token) w.store))
            (none, record w { store = revoke_state st w.store })
            (λ active.
              rotated-Refreshes now new token st w
                (rotate_refresh now session_ttl access_ttl st (next_state settings st new)
                  (digest token) w.store)
                p q fresh known active
                (rotate_refresh-Rotates now session_ttl access_ttl st (next_state settings st new)
                  (digest token) w.store))
            (λ inactive. refl))

-- ===== src/Sessions/Reuse.antt =====
-- A refresh token that is used a second time at once ends its session, and so does a logout.
use rubrica_back.Base.{
  ◌+◌, ◌<◌, ◌≡◌, ◌≢◌, refl, sym, subst, option_split, if_split, String, Bool, true, false, Option,
  none, some, arith, str_eq_iff, truthy,
}
use rubrica_back.Base.Dict.{lookup_text, lookup_text-erase_text}
use rubrica_back.Store.{Instant}
use rubrica_back.Workflow.Requests.{seconds}
use rubrica_back.Sessions.Store.{State, Store, remove_member}
use rubrica_back.Sessions.Service.{
  Settings, Auth, Tokens, user_is_active, revoke_state, rotate_refresh, access_state, refresh_state,
  next_state, refuse_refresh, refresh_from, refreshed, refresh, logout,
}
use rubrica_back.Sessions.Rotation.{
  Rotates, rotate_refresh-Rotates, refresh_state-stored, refresh_state_dead, access_state_dead,
}

-- Without its keys a session has no tokens.
revoke_state_keys :
    (st : State) (s : Store)
    → (lookup_text st.access_key (revoke_state st s).access_keys ≡ none)
      × (lookup_text st.refresh_key (revoke_state st s).refresh_keys ≡ none)
unfolding revoke_state remove_member
revoke_state_keys st s = grind (
  arith,
  lookup_text-erase_text st.access_key st.access_key s.access_keys,
  lookup_text-erase_text st.refresh_key st.refresh_key s.refresh_keys,
  str_eq_iff st.access_key st.access_key,
  str_eq_iff st.refresh_key st.refresh_key,
)

module _ (settings : Settings) where
  open settings use {digest, session_ttl, access_ttl}

  -- What a successful `refresh` leaves in the store.
  abbrev Renews : Instant → String → Tokens → Option Tokens × Auth → Type 0
  Renews now token new (none, v) = Unit
  Renews now token new (some t, v) =
      (lookup_text (digest token) v.store.refresh_keys ≡ none)
      × (lookup_text (digest token) v.store.used_refresh
          ≡ some (record { value = t.session_id; expires_at = now + seconds session_ttl }))
      × (truthy (some t.session_id) ≡ some t.session_id)
      × ((st : State) × (lookup_text t.session_id v.store.sessions
            ≡ some (record {
              value = next_state settings st new;
              expires_at = now + seconds session_ttl;
            })))

  refreshed-Renews :
      (now : Instant) (new : Tokens) (token : String) (st : State) (w : Auth) (r : Bool × Store)
      → digest new.refresh_token ≢ digest token
      → refresh_state settings now token w.store ≡ some st
      → Rotates now session_ttl access_ttl st (next_state settings st new) (digest token) r w.store
      → Renews now token new (refreshed settings new st w r)
  refreshed-Renews now new token st w (false, t) fresh known h = tt
  refreshed-Renews now new token st w (true, t) fresh known h =
      let stored = refresh_state-stored settings now token st w.store known in
      (ground (arith, stored.0, h.4, fresh), h.3, ground (arith, stored, h.5), (st, h.0))

  refresh-Renews :
      (now : Instant) (new : Tokens) (token : String) (w : Auth)
      → digest new.refresh_token ≢ digest token
      → Renews now token new (refresh settings now new token w)
  unfolding refresh refresh_from
  refresh-Renews now new token w fresh =
      option_split (Renews now token new) (refresh_state settings now token w.store)
        (none, record w { store = refuse_refresh settings now token w.store })
        (λ st. refresh_from settings now new token st w) (λ unknown. tt)
        (λ st known.
          let r =
            rotate_refresh now session_ttl access_ttl st (next_state settings st new) (digest token)
              w.store in
          if_split (Renews now token new) (user_is_active st w.tables)
            (refreshed settings new st w r) (none, record w { store = revoke_state st w.store })
            (λ active. refreshed-Renews now new token st w r fresh known (
              rotate_refresh-Rotates now session_ttl access_ttl st (next_state settings st new)
                (digest token) w.store))
            (λ inactive. tt))

  refuse_refresh-used :
      (later : Instant) (token id : String) (st : State) (end : Instant) (s : Store)
      → lookup_text (digest token) s.used_refresh ≡ some (record { value = id; expires_at = end })
      → truthy (some id) ≡ some id
      → lookup_text id s.sessions ≡ some (record { value = st; expires_at = end })
      → later < end
      → refuse_refresh settings later token s ≡ revoke_state st s
  unfolding refuse_refresh
  refuse_refresh-used later token id st end s a b c d = ground (arith, a, b, c, d)

  refresh_refused :
      (later : Instant) (token : String) (other : Tokens) (st : State) (v : Auth)
      → refresh_state settings later token v.store ≡ none
      → refuse_refresh settings later token v.store ≡ revoke_state st v.store
      → refresh settings later other token v ≡ (none, record v { store = revoke_state st v.store })
  unfolding refresh
  refresh_refused later token other st v a b = grind (arith, a, b)

  -- A call gave nothing, and the two tokens are not known any more.
  abbrev pub Ends : Instant → Tokens → Option Tokens × Auth → Type 0
  Ends after new (answer, u) =
      (answer ≡ none)
      × (access_state settings after new.access_token u.store ≡ none)
      × (refresh_state settings after new.refresh_token u.store ≡ none)

  -- Where the new refresh token has another digest than the old one: a refresh token that is presented
  -- again in the very next call on the store after it was used, before the life of a session from that
  -- use is over, gives nothing and ends the session: neither the access
  -- token nor the refresh token that the first use gave is known any more, at any instant.
  pub refresh_twice :
      (now later after : Instant) (new other t : Tokens) (token : String) (w v : Auth)
      → digest new.refresh_token ≢ digest token
      → refresh settings now new token w ≡ (some t, v)
      → later < now + seconds session_ttl
      → Ends after new (refresh settings later other token v)
  refresh_twice now later after new other t token w v fresh e alive =
      let h = subst (Renews now token new) e (refresh-Renews now new token w fresh) in
      let next = next_state settings (h.3.0) new in
      let unknown = refresh_state_dead settings later token v.store (h.0) in
      let ended =
        refuse_refresh-used later token t.session_id next (now + seconds session_ttl) v.store (h.1)
          (h.2) (h.3.1) alive in
      let keys = revoke_state_keys next v.store in
      subst (Ends after new) (sym (refresh_refused later token other next v unknown ended)) (
        refl,
        access_state_dead settings after new.access_token (revoke_state next v.store) (keys.0),
        refresh_state_dead settings after new.refresh_token (revoke_state next v.store) (keys.1),
      )

  -- What a logout leaves of the session of the token.
  abbrev pub LogsOut : Instant → String → Option State → Store → Bool × Store → Type 0
  LogsOut after token none s (done, t) = (done ≡ false) × (t ≡ s)
  LogsOut after token (some st) s (done, t) =
      (done ≡ true)
      × (access_state settings after token t ≡ none)
      × (lookup_text st.refresh_key t.refresh_keys ≡ none)

  access_state-key :
      (now : Instant) (token : String) (st : State) (s : Store)
      → access_state settings now token s ≡ some st
      → st.access_key ≡ digest token
  unfolding access_state
  access_state-key now token st s e = ground (arith, str_eq_iff st.access_key (digest token), e)

  logout_found :
      (now after : Instant) (token : String) (s : Store) (o : Option State)
      → access_state settings now token s ≡ o
      → LogsOut after token o s (elim o [ none ↦ (false, s) | some st ↦ (true, revoke_state st s) ])
  logout_found now after token s none e = (refl, refl)
  logout_found now after token s (some st) e =
      let keys = revoke_state_keys st s in
      let dead : lookup_text (digest token) (revoke_state st s).access_keys ≡ none =
        subst (λ k. lookup_text k (revoke_state st s).access_keys ≡ none)
          (access_state-key now token st s e) (keys.0) in
      (refl, access_state_dead settings after token (revoke_state st s) dead, keys.1)

  -- `logout` answers whether the access token leads to a session. If it does, that token is not known
  -- any more at any instant, and the refresh token of the session has no entry; if not, nothing
  -- changes.
  pub logout-LogsOut :
      (now after : Instant) (token : String) (s : Store)
      → LogsOut after token (access_state settings now token s) s (logout settings now token s)
  unfolding logout
  logout-LogsOut now after token s =
      logout_found now after token s (access_state settings now token s) refl

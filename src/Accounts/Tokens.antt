-- ===== src/Accounts/Tokens.antt =====
-- The tokens of account mails: each works once, a new one takes the place of those before it, and a
-- new password ends the sessions of the user.
use rubrica_back.Base.{
  ℕ, ◌+◌, ◌≡◌, ◌≢◌, refl, subst, option_split, if_split, String, Bool, true, false, Option, none,
  some, [], ◌∷◌, arith, str_eq_iff, is_none, ◌&&◌, not, ◌==◌,
}
use rubrica_back.Base.Actions.{Result, ok, err, transaction, ◌>>=◌}
use rubrica_back.Base.Dict.{TextDict, lookup_text, insert_text, lookup_text-insert_text}
use rubrica_back.Store.{Instant}
use rubrica_back.Mfa.Service.{User}
use rubrica_back.Sessions.Store.{State}
use rubrica_back.Sessions.Service.{find_by_id, user_is_active}
use rubrica_back.Accounts.Service.{
  Purpose, verification, recovery, same_purpose, invalid_token, take_token, with_password,
  activated, AccountToken, Accounts, Settings, update_user, consume_open, is_valid, issue_token,
  consume_token, change_user, verify_email, reset_password,
}

update_user_found :
    (i : ℕ) (f : User → User) (users : TextDict User) (u : User)
    → find_by_id i users ≡ some u
    → (f u).id ≡ u.id
    → find_by_id i (update_user i f users) ≡ some (f u)
unfolding find_by_id update_user
update_user_found i f [] u e h = ground (arith, e)
update_user_found i f ((email, v) ∷ users) u e h =
    ground (arith, e, h, update_user_found i f users u)

-- The sessions of these users.
abbrev pub knows : TextDict User → State → Bool
knows users st =
    user_is_active st (record { users = users; recovery_codes = []; security_events = [] })

-- What a reset with a token does: a refused one changes nothing; a granted one ends every session of
-- the user of the token that was active before, and the token is consumed.
abbrev pub Resets : Settings → Instant → String → Accounts → Result (Unit {0}) × Accounts → Type 0
Resets settings now raw s (err _, t) = t ≡ s
Resets settings now raw s (ok _, t) =
    (token : AccountToken) × (lookup_text (settings.digest raw) s.tokens ≡ some token)
    × ((st : State)
        → st.user_id ≡ token.user_id
        → knows s.users st ≡ true
        → knows t.users st ≡ false)
    × (lookup_text (settings.digest raw) t.tokens ≡ some (record token { consumed_at = some now }))

-- A change that counts the version of the tokens up ends the sessions.
update_user-knows :
    (i : ℕ) (f : User → User) (users : TextDict User) (u : User) (st : State)
    → find_by_id i users ≡ some u
    → (f u).id ≡ u.id
    → (f u).token_version ≡ u.token_version + 1
    → st.user_id ≡ i
    → knows users st ≡ true
    → knows (update_user i f users) st ≡ false
unfolding user_is_active
update_user-knows i f users u st e h bump mine was =
    ground (arith, e, bump, mine, was, update_user_found i f users u e h)

module _ (settings : Settings) where
  open settings use {digest}

  -- What `_consume_token` does: it takes a valid token, or changes nothing.
  abbrev Takes : Instant → Purpose → String → Accounts → Result AccountToken × Accounts → Type 0
  Takes now purpose raw s (err e, t) = t ≡ s
  Takes now purpose raw s (ok c, t) =
      (token : AccountToken) × (lookup_text (digest raw) s.tokens ≡ some token)
      × (c ≡ record token { consumed_at = some now })
      × (t.users ≡ s.users)
      × (lookup_text (digest raw) t.tokens ≡ some c)

  consume_token-Takes :
      (now : Instant) (purpose : Purpose) (raw : String) (s : Accounts)
      → Takes now purpose raw s (consume_token settings now raw purpose s)
  unfolding consume_token take_token
  consume_token-Takes now purpose raw s =
      option_split (Takes now purpose raw s) (lookup_text (digest raw) s.tokens)
        (err invalid_token, s) (λ t. take_token settings now raw purpose t s) (λ missing. refl)
        (λ t found.
          if_split (Takes now purpose raw s) (is_valid now purpose t)
            (
              ok (record t { consumed_at = some now }),
              record s {
                tokens = insert_text (digest raw) (record t { consumed_at = some now }) s.tokens;
              },
            )
            (err invalid_token, s)
            (λ valid. (
              t,
              found,
              refl,
              refl,
              ground (
                arith,
                str_eq_iff (digest raw) (digest raw),
                lookup_text-insert_text (digest raw) (digest raw)
                    (record t { consumed_at = some now }) s.tokens,
              ),
            ))
            (λ invalid. refl))

  -- A change of the user behind a taken token.
  changed-Resets :
      (now : Instant) (purpose : Purpose) (raw : String) (s : Accounts) (f : User → User)
      → ((u : User) → ((f u).id ≡ u.id) × ((f u).token_version ≡ u.token_version + 1))
      → (m : Result AccountToken × Accounts) → Takes now purpose raw s m
      → Resets settings now raw s
          (transaction ((λ (_ : Accounts). m) >>= λ t. change_user settings t.user_id f) s)
  unfolding change_user
  changed-Resets now purpose raw s f bump (err e, t) h = refl
  changed-Resets now purpose raw s f bump (ok c, t) (token, found, same, users, stored) =
      option_split
        (λ (r : Result (Unit {0}) × Accounts).
          Resets settings now raw s (elim (r.0) [ ok a ↦ (ok a, r.1) | err e ↦ (err e, s) ]))
        (find_by_id c.user_id t.users) (err invalid_token, t)
        (λ u. (ok tt, record t { users = update_user c.user_id f t.users })) (λ missing. refl)
        (λ u known. (
          token,
          found,
          (λ st mine was.
              update_user-knows c.user_id f t.users u st known ((bump u).0) ((bump u).1)
                (ground (arith, same, mine)) (rw users was)),
          ground (arith, stored, same),
        ))

  -- `reset_password` and `verify_email` either change nothing, or the token of the mail is consumed
  -- at that instant, and every session of its user that was active is not active any more.
  pub reset_password-Resets :
      (now : Instant) (raw password : String) (s : Accounts)
      → Resets settings now raw s (reset_password settings now raw password s)
        × Resets settings now raw s (verify_email settings now raw password s)
  unfolding reset_password verify_email
  reset_password-Resets now raw password s = (
    changed-Resets now recovery raw s (with_password settings password) (λ u. (refl, refl))
        (consume_token settings now raw recovery s) (consume_token-Takes now recovery raw s),
    changed-Resets now verification raw s (activated settings password) (λ u. (refl, refl))
        (consume_token settings now raw verification s)
        (consume_token-Takes now verification raw s),
  )

  consumed_refused :
      (later : Instant) (raw password : String) (s : Accounts) (token : AccountToken)
      → lookup_text (digest raw) s.tokens ≡ some token
      → is_none token.consumed_at ≡ false
      → reset_password settings later raw password s ≡ (err invalid_token, s)
  unfolding reset_password consume_token take_token
  consumed_refused later raw password s token found used = grind (arith, found, used)

  -- A token works once: after a reset that was granted, a second one with the same token, at any
  -- instant and with any password, is refused and changes nothing.
  pub reset_password_once :
      (now later : Instant) (raw password other : String) (s t : Accounts)
      → reset_password settings now raw password s ≡ (ok tt, t)
      → reset_password settings later raw other t ≡ (err invalid_token, t)
  reset_password_once now later raw password other s t e =
      let h = subst (Resets settings now raw s) e ((reset_password-Resets now raw password s).0) in
      consumed_refused later raw other t (record (h.0) { consumed_at = some now }) (h.3) refl

  -- No open token of the user for the purpose.
  abbrev pub is_closed : ℕ → Purpose → Option AccountToken → Bool
  is_closed user purpose none = true
  is_closed user purpose (some t) =
      not (t.user_id == user && same_purpose t.purpose purpose && is_none t.consumed_at)

  consume_open-is_closed :
      (now : Instant) (user : ℕ) (purpose : Purpose) (k : String) (tokens : TextDict AccountToken)
      → is_closed user purpose (lookup_text k (consume_open now user purpose tokens)) ≡ true
  unfolding lookup_text consume_open
  consume_open-is_closed now user purpose k [] = refl
  consume_open-is_closed now user purpose k ((j, t) ∷ tokens) =
      ground (arith, consume_open-is_closed now user purpose k tokens)

  -- A token that is taken belongs to another user.
  abbrev pub IsForeign : ℕ → Result AccountToken × Accounts → Type 0
  IsForeign user (err _, t) = Unit
  IsForeign user (ok c, t) = c.user_id ≢ user

  -- A new token takes the place of the earlier ones: after `_issue_token` for a user, a raw token with
  -- another digest than the new one is not accepted for that purpose at any instant, unless it belongs
  -- to another user.
  pub issue_token-IsForeign :
      (now later : Instant) (raw other : String) (u : User) (purpose : Purpose) (ttl : ℕ)
      (s : Accounts)
      → digest other ≢ digest raw
      → IsForeign u.id (
          consume_token settings later other purpose (issue_token settings now raw u purpose ttl s))
  unfolding consume_token take_token issue_token
  issue_token-IsForeign now later raw other u purpose ttl s different = grind (
    arith,
    str_eq_iff (digest other) (digest raw),
    lookup_text-insert_text (digest raw) (digest other),
    consume_open-is_closed now u.id purpose (digest other) s.tokens,
  )

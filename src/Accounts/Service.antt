-- ===== src/Accounts/Service.antt =====
-- The operations of `AccountService` on its tokens: the mails that verify an address and that reset a
-- password. A raw token is drawn by the caller of a definition.
use rubrica_back.Base.{
  ℕ, ◌+◌, String, Bool, true, false, ◌&&◌, Option, none, some, [], ◌∷◌, ltb, ◌==◌, if◌then◌else◌,
  is_none,
}
use rubrica_back.Base.Actions.{Error, ok, err, workflow_error, Action, transaction, ◌>>=◌}
use rubrica_back.Base.Dict.{TextDict, lookup_text, insert_text}
use rubrica_back.Store.{Instant}
use rubrica_back.Workflow.Requests.{seconds}
use rubrica_back.Mfa.Service.{User}
use rubrica_back.Sessions.Service.{find_by_id}

-- `verify_email` and `reset_password`
pub data Purpose : Type 0 where
  verification recovery : Purpose

-- `AccountTokenEntity`, under its unique `token_hash`.
pub record AccountToken : Type 0 where
  pub user_id : ℕ
  pub purpose : Purpose
  pub expires_at : Instant
  pub consumed_at : Option Instant
  pub deleted_at : Option Instant

pub record Accounts : Type 0 where
  pub users : TextDict User
  pub tokens : TextDict AccountToken

-- A mail, without its text: to whom, for what, and the token in its address.
pub record Mail : Type 0 where
  pub recipient : String
  pub mail_purpose : Purpose
  pub token : String
  pub return_url : Option String

pub record Settings : Type 0 where
  pub digest : String → String
  pub strip : String → String
  pub lower : String → String
  pub hash_password : String → String
  pub verification_ttl : ℕ
  pub recovery_ttl : ℕ

abbrev pub same_purpose : Purpose → Purpose → Bool
same_purpose verification verification = true
same_purpose recovery recovery = true
same_purpose _ _ = false

abbrev pub invalid_token : Error
invalid_token = workflow_error "InvalidAccountTokenError" 0

-- A change of the row of a user, found by its identifier.
unfoldable pub update_user : ℕ → (User → User) → TextDict User → TextDict User
update_user i f [] = []
update_user i f ((email, u) ∷ users) =
    let later = update_user i f users in
    if u.id == i then (email, f u) ∷ users else (email, u) ∷ later

-- The tokens of a user that are still open for the purpose are consumed.
unfoldable pub consume_open : Instant → ℕ → Purpose → TextDict AccountToken → TextDict AccountToken
consume_open now user purpose [] = []
consume_open now user purpose ((k, t) ∷ tokens) =
    let later = consume_open now user purpose tokens in
    if t.user_id == user && same_purpose t.purpose purpose && is_none t.consumed_at
    then (k, record t { consumed_at = some now }) ∷ later
    else (k, t) ∷ later

-- The query of `_consume_token`.
abbrev pub is_valid : Instant → Purpose → AccountToken → Bool
is_valid now purpose t =
    same_purpose t.purpose purpose
    && is_none t.consumed_at
    && ltb now t.expires_at
    && is_none t.deleted_at

module _ (settings : Settings) where
  open settings use {digest, strip, lower, hash_password, verification_ttl, recovery_ttl}

  -- `_issue_token`
  unfoldable pub issue_token : Instant → String → User → Purpose → ℕ → Accounts → Accounts
  issue_token now raw u purpose ttl s = record s {
    tokens =
        insert_text (digest raw)
          (record {
            user_id = u.id;
            purpose = purpose;
            expires_at = now + seconds ttl;
            consumed_at = none;
            deleted_at = none;
          })
          (consume_open now u.id purpose s.tokens);
  }

  -- The consumption of a token that is found.
  unfoldable pub take_token :
      Instant → String → Purpose → AccountToken → Action Accounts AccountToken
  take_token now raw purpose t s =
      let consumed = record t { consumed_at = some now } in
      if is_valid now purpose t
      then (ok consumed, record s { tokens = insert_text (digest raw) consumed s.tokens })
      else (err invalid_token, s)

  -- `_consume_token`
  unfoldable pub consume_token : Instant → String → Purpose → Action Accounts AccountToken
  consume_token now raw purpose s = elim (lookup_text (digest raw) s.tokens) [
    | none ↦ (err invalid_token, s)
    | some t ↦ take_token now raw purpose t s
  ]

  -- `_user_by_email`
  unfoldable pub user_by_email : String → Accounts → Option User
  user_by_email email s = elim (lookup_text (lower (strip email)) s.users) [
    | none ↦ none
    | some u ↦ if is_none u.deleted_at then some u else none
  ]

  -- `request_email_verification`: the mail that is sent, if any.
  unfoldable pub request_email_verification :
      Instant → String → String → Accounts → Option Mail × Accounts
  request_email_verification now raw email s = elim (user_by_email email s) [
    | none ↦ (none, s)
    | some u ↦ elim u.email_verified [
      | true ↦ (none, s)
      | false ↦ (
        some (record {
          recipient = u.email;
          mail_purpose = verification;
          token = raw;
          return_url = none;
        }),
        issue_token now raw u verification verification_ttl s,
      )
    ]
  ]

  -- `request_password_recovery`
  unfoldable pub request_password_recovery :
      Instant → String → String → Option String → Accounts → Option Mail × Accounts
  request_password_recovery now raw email return_url s = elim (user_by_email email s) [
    | none ↦ (none, s)
    | some u ↦ elim u.is_active [
      | false ↦ (none, s)
      | true ↦ (
        some (record {
          recipient = u.email;
          mail_purpose = recovery;
          token = raw;
          return_url = return_url;
        }),
        issue_token now raw u recovery recovery_ttl s,
      )
    ]
  ]

  -- The user of a token, changed; without one, the token is invalid.
  unfoldable pub change_user : ℕ → (User → User) → Action Accounts (Unit {0})
  change_user i f s = elim (find_by_id i s.users) [
    | none ↦ (err invalid_token, s)
    | some u ↦ (ok tt, record s { users = update_user i f s.users })
  ]

  abbrev pub activated : String → User → User
  activated password u = record u {
    password_hash = hash_password password;
    email_verified = true;
    is_active = true;
    token_version = u.token_version + 1;
  }

  abbrev pub with_password : String → User → User
  with_password password u = record u {
    password_hash = hash_password password;
    token_version = u.token_version + 1;
  }

  -- `verify_email`
  unfoldable pub verify_email : Instant → String → String → Action Accounts (Unit {0})
  verify_email now raw password =
      transaction
        (do t ← consume_token now raw verification; change_user t.user_id (activated password))

  -- `reset_password`
  unfoldable pub reset_password : Instant → String → String → Action Accounts (Unit {0})
  reset_password now raw password =
      transaction
        (do t ← consume_token now raw recovery; change_user t.user_id (with_password password))

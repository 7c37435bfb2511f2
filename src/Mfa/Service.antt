-- ===== src/Mfa/Service.antt =====
-- `MfaService`, on the tables of apps/auth_api/src/auth_api/modules/users/user_entity.py. A text that is
-- empty is no secret, as in Python. An `MfaError` has no status; 0 stands for it.
use Prim.Native.Char.{code}
use rubrica_back.Base.{
  ℕ, String, Bool, true, false, ◌&&◌, not, Option, none, some, List, [], ◌∷◌, ◌++◌, map, keep,
  count, ◌==◌, leb, if◌then◌else◌, is_none, truthy,
}
use rubrica_back.Base.Actions.{
  Error, ok, err, workflow_error, Action, pure, or_raise, raise_if, modify, transaction, ◌>>=◌,
  ◌>>◌,
}
use rubrica_back.Base.Dict.{TextDict, lookup_text, insert_text}

-- The columns of `UserEntity` that the service reads or writes; `email` is unique.
pub record User : Type 0 where
  pub id : ℕ
  pub email : String
  pub mfa_enabled : Bool
  pub mfa_secret : Option String
  pub mfa_pending_secret : Option String
  pub mfa_last_used_step : Option ℕ
  pub password_hash : String
  pub email_verified : Bool
  pub is_active : Bool
  pub token_version : ℕ
  pub deleted_at : Option ℕ

pub record RecoveryCode : Type 0 where
  pub user_id : ℕ
  pub code_hash : String
  pub consumed_at : Option ℕ
  pub deleted_at : Option ℕ

pub record Tables : Type 0 where
  pub users : TextDict User
  pub recovery_codes : List RecoveryCode
  pub security_events : List (ℕ × String)

-- What the service takes from outside: `pyotp.TOTP(secret).verify(code, valid_window=1)` and
-- `timecode` at an instant, the encryption of secrets, password hashes, and the case of texts.
pub record Authenticator : Type 0 where
  pub verify_totp : String → String → ℕ → Bool
  pub timecode : String → ℕ → ℕ
  pub encrypt_secret : String → String
  pub decrypt_secret : String → String
  pub hash_password : String → String
  pub verify_password : String → String → Bool
  pub upper : String → String
  pub lower : String → String

abbrev pub mfa_error : String → Error
mfa_error m = workflow_error m 0

-- `text.replace(c, "")`, the character given by its code.
unfoldable pub remove_char : ℕ → String → String
remove_char n String.[] = String.[]
remove_char n (String.◌∷◌ c s) =
    let rest = remove_char n s in if code c == n then rest else String.◌∷◌ c rest

abbrev space : ℕ
space = 32

abbrev hyphen : ℕ
hyphen = 45

abbrev pub save_user : User → Tables → Tables
save_user u db = record db { users = insert_text u.email u db.users }

-- `audit`
abbrev pub record_event : User → String → Tables → Tables
record_event u action db = record db { security_events = db.security_events ++ (u.id, action) ∷ [] }

-- The codes that `verify_user_code` and `status` select.
abbrev pub is_usable : ℕ → RecoveryCode → Bool
is_usable user_id c = c.user_id == user_id && is_none c.consumed_at && is_none c.deleted_at

unfoldable pub remaining_codes : ℕ → Tables → ℕ
remaining_codes user_id db = count (is_usable user_id) db.recovery_codes

-- The loop of `verify_user_code`: the first usable code that matches is consumed.
unfoldable pub consume_code :
    ℕ → (String → Bool) → ℕ → List RecoveryCode → Option (List RecoveryCode)
consume_code now matches user_id [] = none
consume_code now matches user_id (c ∷ cs) =
    let rest = consume_code now matches user_id cs in
    if is_usable user_id c && matches c.code_hash
    then some (record c { consumed_at = some now } ∷ cs)
    else elim rest [ none ↦ none | some ds ↦ some (c ∷ ds) ]

module _ (env : Authenticator) where
  open env use {
    verify_totp, timecode, encrypt_secret, decrypt_secret, hash_password, verify_password, upper,
    lower,
  }

  -- `_user`
  unfoldable pub find_user : String → Action Tables User
  find_user subject db = elim (lookup_text (lower subject) db.users) [
    | none ↦ (err (mfa_error "User not found"), db)
    | some u ↦ if is_none u.deleted_at then (ok u, db) else (err (mfa_error "User not found"), db)
  ]

  -- `code.replace("-", "").replace(" ", "").upper()`
  unfoldable pub normalize_code : String → String
  normalize_code text = upper (remove_char space (remove_char hyphen text))

  -- A one-time password is not accepted twice in a step.
  abbrev pub is_used_step : Option ℕ → ℕ → Bool
  is_used_step none step = false
  is_used_step (some last) step = leb step last

  -- The recovery codes of `verify_user_code`.
  unfoldable pub verify_recovery_code : ℕ → User → String → Action Tables Bool
  verify_recovery_code now u normalized db =
      elim (consume_code now (verify_password normalized) u.id db.recovery_codes) [
        | none ↦ (ok false, db)
        | some codes ↦ (ok true, record db { recovery_codes = codes })
      ]

  -- `verify_user_code`
  unfoldable pub verify_user_code : ℕ → User → String → Action Tables Bool
  verify_user_code now u text db =
      let normalized : String = normalize_code text in
      elim (truthy u.mfa_secret) [
        | none ↦ verify_recovery_code now u normalized db
        | some ciphertext ↦
            let secret : String = decrypt_secret ciphertext in
            elim (verify_totp secret normalized now) [
              | false ↦ verify_recovery_code now u normalized db
              | true ↦
                  let step : ℕ = timecode secret now in
                  elim (is_used_step u.mfa_last_used_step step) [
                    | true ↦ (ok false, db)
                    | false ↦ (ok true, save_user (record u { mfa_last_used_step = some step }) db)
                  ]
            ]
      ]

  -- The eight new codes of a user in place of all the old ones.
  abbrev pub replace_codes : ℕ → List String → Tables → Tables
  replace_codes user_id new db =
      let fresh =
        map
          (λ (text : String). record {
            user_id = user_id;
            code_hash = hash_password text;
            consumed_at = none;
            deleted_at = none;
          })
          new in
      record db {
        recovery_codes = keep (λ c. not (c.user_id == user_id)) db.recovery_codes ++ fresh;
      }

  -- `setup`, with the random secret as an argument
  unfoldable pub setup : String → String → Action Tables String
  setup secret subject = transaction (do
    u ← find_user subject
    modify (save_user (record u { mfa_pending_secret = some (encrypt_secret secret) }))
    modify (record_event u "mfa.setup_started")
    pure secret)

  -- `confirm`, with the random recovery codes as an argument
  unfoldable pub confirm : ℕ → List String → String → String → Action Tables (List String)
  confirm now new subject text = transaction (do
    u ← find_user subject
    ciphertext ← or_raise (truthy u.mfa_pending_secret) (mfa_error "MFA setup has not been started")
    let secret : String = decrypt_secret ciphertext
    raise_if (not (verify_totp secret (remove_char space text) now))
        (mfa_error "MFA code is invalid")
    modify (
        save_user (record u {
          mfa_secret = u.mfa_pending_secret;
          mfa_pending_secret = none;
          mfa_enabled = true;
          mfa_last_used_step = some (timecode secret now);
        }))
    modify (replace_codes u.id new)
    modify (record_event u "mfa.enabled")
    pure new)

  -- `regenerate_recovery_codes`
  unfoldable pub regenerate_recovery_codes :
      ℕ → List String → String → String → String → Action Tables (List String)
  regenerate_recovery_codes now new subject password text = transaction (do
    u ← find_user subject
    raise_if (not (verify_password password u.password_hash)) (mfa_error "Password is invalid")
    raise_if (not u.mfa_enabled) (mfa_error "MFA code is invalid")
    valid ← verify_user_code now u text
    raise_if (not valid) (mfa_error "MFA code is invalid")
    modify (replace_codes u.id new)
    modify (record_event u "mfa.recovery_codes_regenerated")
    pure new)

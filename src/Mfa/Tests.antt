-- ===== src/Mfa/Tests.antt =====
-- Runs of multi-factor authentication on small inputs.
use rubrica_back.Base.{
  ℕ, ◌+◌, ◌≡◌, refl, Bool, true, false, ◌&&◌, ◌||◌, none, some, [], ◌∷◌, arith, leb, str_eq,
}
use rubrica_back.Base.Actions.{ok}
use rubrica_back.Base.Dict.{lookup_text, insert_text}
use rubrica_back.Mfa.Service.{
  User, RecoveryCode, Tables, Authenticator, remove_char, consume_code, normalize_code,
  verify_recovery_code, verify_user_code,
}
use rubrica_back.Mfa.Verification.{Verifies, verify_user_code-Verifies, verify_user_code_once}

program : Unit {0}
unfolding lookup_text insert_text remove_char consume_code normalize_code verify_recovery_code
    verify_user_code
program = tt

abbrev is_near : ℕ → ℕ → Bool
is_near a b = leb a (b + 1) && leb b (a + 1)

-- An instant is its step; the password of step 1 is "one", of step 2 "two", and each is valid one
-- step around its own. A text is its own hash and encryption.
abbrev device : Authenticator
device = record {
  verify_totp =
      λ secret c now. (str_eq c "one" && is_near now 1) || (str_eq c "two" && is_near now 2);
  timecode = λ secret now. now;
  encrypt_secret = λ s. s;
  decrypt_secret = λ s. s;
  hash_password = λ s. s;
  verify_password = λ s h. str_eq s h;
  upper = λ s. s;
  lower = λ s. s;
}

abbrev dora : User
dora = record {
  id = 1;
  email = "dora@x.y";
  mfa_enabled = true;
  mfa_secret = some "secret";
  mfa_pending_secret = none;
  mfa_last_used_step = none;
  password_hash = "password";
  email_verified = true;
  is_active = true;
  token_version = 1;
  deleted_at = none;
}

abbrev recovery : RecoveryCode
recovery = record { user_id = 1; code_hash = "ABC"; consumed_at = none; deleted_at = none }

abbrev tables : Tables
tables = record {
  users = ("dora@x.y", dora) ∷ [];
  recovery_codes = recovery ∷ [];
  security_events = [];
}

abbrev dora_at : ℕ → User
dora_at step = record dora { mfa_last_used_step = some step }

abbrev tables_at : ℕ → Tables
tables_at step = record tables { users = ("dora@x.y", dora_at step) ∷ [] }

verify_user_code-Verifies_example :
    Verifies device 5 dora "A-B C" tables (verify_user_code device 5 dora "A-B C" tables)
verify_user_code-Verifies_example = verify_user_code-Verifies device 5 dora "A-B C" tables

recovery_code_is_accepted : (verify_user_code device 5 dora "A-B C" tables).0 ≡ ok true
unfolding program
recovery_code_is_accepted = refl

is_accepted : verify_user_code device 1 dora "two" tables ≡ (ok true, tables_at 1)
unfolding program
is_accepted = refl

good_now : device.verify_totp "secret" (normalize_code device "two") 1 ≡ true
unfolding program
good_now = refl

good_again : device.verify_totp "secret" (normalize_code device "one") 1 ≡ true
unfolding program
good_again = refl

is_stored : lookup_text "dora@x.y" (tables_at 1).users ≡ some (dora_at 1)
unfolding program
is_stored = refl

-- The password of the next step is accepted early, and then a second time in its own step.
next_password_counts_twice :
    verify_user_code device 2 (dora_at 1) "two" (tables_at 1) ≡ (ok true, tables_at 2)
unfolding program
next_password_counts_twice = refl

verify_user_code_once_example :
    verify_user_code device 1 (dora_at 1) "one" (tables_at 1) ≡ (ok false, tables_at 1)
verify_user_code_once_example =
    verify_user_code_once device 1 1 dora (dora_at 1) "two" "one" "secret" tables (tables_at 1) refl
      good_now is_accepted is_stored good_again (ground arith)

-- ===== src/Accounts/Tests.antt =====
-- Runs of the account service on small inputs.
use rubrica_back.Base.{◌≡◌, ◌≢◌, refl, true, false, none, [], ◌∷◌, arith, str_eq_iff}
use rubrica_back.Base.Actions.{Result, ok, err}
use rubrica_back.Base.Dict.{lookup_text, insert_text}
use rubrica_back.Mfa.Service.{User}
use rubrica_back.Sessions.Service.{find_by_id, user_is_active}
use rubrica_back.Accounts.Service.{
  recovery, Accounts, Settings, invalid_token, update_user, consume_open, issue_token, take_token,
  consume_token, user_by_email, request_email_verification, request_password_recovery, change_user,
  verify_email, reset_password,
}
use rubrica_back.Accounts.Tokens.{
  Resets, reset_password-Resets, reset_password_once, IsForeign, issue_token-IsForeign,
}

program : Unit {0}
unfolding lookup_text insert_text find_by_id user_is_active update_user consume_open issue_token
    take_token consume_token user_by_email request_email_verification request_password_recovery
    change_user verify_email reset_password
program = tt

abbrev settings : Settings
settings = record {
  digest = λ t. t;
  strip = λ t. t;
  lower = λ t. t;
  hash_password = λ t. t;
  verification_ttl = 100;
  recovery_ttl = 50;
}

abbrev dora : User
dora = record {
  id = 1;
  email = "dora@x.y";
  mfa_enabled = false;
  mfa_secret = none;
  mfa_pending_secret = none;
  mfa_last_used_step = none;
  password_hash = "password";
  email_verified = true;
  is_active = true;
  token_version = 1;
  deleted_at = none;
}

abbrev accounts : Accounts
accounts = record { users = ("dora@x.y", dora) ∷ []; tokens = [] }

abbrev requested : Accounts
requested = (request_password_recovery settings 1 "raw" "dora@x.y" none accounts).1

abbrev asked_again : Accounts
asked_again = (request_password_recovery settings 2 "next" "dora@x.y" none requested).1

abbrev reset : Result (Unit {0}) × Accounts
reset = reset_password settings 3 "raw" "better" requested

a_reset_is_granted : reset.0 ≡ ok tt
unfolding program
a_reset_is_granted = refl

an_earlier_token_is_refused :
    (reset_password settings 3 "raw" "better" asked_again).0 ≡ err invalid_token
unfolding program
an_earlier_token_is_refused = refl

a_token_for_a_password_verifies_no_address :
    (verify_email settings 3 "raw" "better" requested).0 ≡ err invalid_token
unfolding program
a_token_for_a_password_verifies_no_address = refl

a_verified_address_gets_no_mail :
    (request_email_verification settings 1 "raw" "dora@x.y" accounts).0 ≡ none
unfolding program
a_verified_address_gets_no_mail = refl

reset_password-Resets_example :
    Resets settings 3 "raw" requested reset
    × Resets settings 3 "raw" requested (verify_email settings 3 "raw" "better" requested)
reset_password-Resets_example = reset_password-Resets settings 3 "raw" "better" requested

reset_password_once_example :
    reset_password settings 4 "raw" "worse" reset.1 ≡ (err invalid_token, reset.1)
unfolding program
reset_password_once_example =
    reset_password_once settings 3 4 "raw" "better" "worse" requested reset.1 refl

other_token : settings.digest "raw" ≢ settings.digest "next"
other_token e = ground (arith, (str_eq_iff (settings.digest "raw") (settings.digest "next")).1 e)

issue_token-IsForeign_example : IsForeign settings 1 (
    consume_token settings 4 "raw" recovery
      (issue_token settings 2 "next" dora recovery 50 requested))
issue_token-IsForeign_example =
    issue_token-IsForeign settings 2 4 "next" "raw" dora recovery 50 requested other_token

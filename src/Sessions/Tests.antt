-- ===== src/Sessions/Tests.antt =====
-- Runs of the session service on small inputs.
use Prim.Native.String.{◌++◌ as ◌<>◌}
use rubrica_back.Base.{
  ◌≡◌, ◌≢◌, refl, String, Bool, true, false, Option, none, some, [], ◌∷◌, arith, str_eq, str_eq_iff,
}
use rubrica_back.Base.Dict.{lookup, insert, lookup_text, insert_text, erase_text}
use rubrica_back.Mfa.Service.{
  User, Authenticator, verify_user_code, remove_char, consume_code, verify_recovery_code,
}
use rubrica_back.Sessions.Store.{State, Store, count_attempt, members, add_member, remove_member}
use rubrica_back.Sessions.Service.{
  Settings, Auth, Tokens, LoginResult, opened, refused, find_by_id, user_is_active, revoke_state,
  rotate_refresh, access_state, refresh_state, store_session, next_state, refuse_refresh,
  refresh_from, refresh, current_session, logout, revoke_all, logout_all, check_login, login,
  check_code, complete_mfa_challenge,
}
use rubrica_back.Sessions.Rotation.{rotate_refresh_once, Refreshes, refresh-Refreshes}
use rubrica_back.Sessions.Reuse.{Ends, refresh_twice, LogsOut, logout-LogsOut}
use rubrica_back.Sessions.Limits.{login_limit, complete_mfa_challenge_limit}

program : Unit {0}
unfolding lookup insert lookup_text insert_text erase_text verify_user_code count_attempt members
    add_member remove_member find_by_id user_is_active revoke_state rotate_refresh access_state
    refresh_state store_session refuse_refresh refresh_from refresh current_session logout
    revoke_all logout_all check_login login check_code complete_mfa_challenge remove_char
    consume_code verify_recovery_code
program = tt

abbrev settings : Settings
settings = record {
  digest = λ t. t;
  strip = λ t. t;
  session_ttl = 100;
  access_ttl = 10;
  challenge_ttl = 50;
}

abbrev authenticator : Authenticator
authenticator = record {
  verify_totp = λ secret code now. str_eq secret code;
  timecode = λ secret now. now;
  encrypt_secret = λ t. t;
  decrypt_secret = λ t. t;
  hash_password = λ t. t;
  verify_password = str_eq;
  upper = λ t. t;
  lower = λ t. t;
}

abbrev dora : User
dora = record {
  id = 1;
  email = "dora@x.y";
  mfa_enabled = false;
  mfa_secret = none;
  mfa_pending_secret = none;
  mfa_last_used_step = none;
  password_hash = "password";
  email_verified = true;
  is_active = true;
  token_version = 1;
  deleted_at = none;
}

abbrev empty : Auth
empty = record {
  store = record {
    sessions = [];
    access_keys = [];
    refresh_keys = [];
    used_refresh = [];
    challenges = [];
    login_attempts = [];
    challenge_attempts = [];
    operation_attempts = [];
    user_sessions = [];
  };
  tables = record { users = ("dora@x.y", dora) ∷ []; recovery_codes = []; security_events = [] };
}

abbrev tokens : String → Tokens
tokens n = record {
  access_token = "access_" <> n;
  refresh_token = "refresh_" <> n;
  session_id = "session";
}

abbrev attempt : String → LoginResult × Auth
attempt password = login settings authenticator 0 "dora@x.y" password (tokens "1") "ticket" empty

the_right_password_opens_a_session : (attempt "password").0 ≡ opened (tokens "1")
unfolding program
the_right_password_opens_a_session = refl

a_wrong_password_is_refused : (attempt "other").0 ≡ refused
unfolding program
a_wrong_password_is_refused = refl

abbrev logged_in : Auth
logged_in = (attempt "password").1

the_session_is_known :
    current_session settings 1 "access_1" logged_in ≡ some ("session", "dora@x.y")
unfolding program
the_session_is_known = refl

-- A change of the token version, as after a reset of the password, ends every session.
a_new_token_version_ends_the_session :
    current_session settings 1 "access_1" (record logged_in {
      tables = record (logged_in.tables) {
        users = ("dora@x.y", record dora { token_version = 2 }) ∷ [];
      };
    })
    ≡ none
unfolding program
a_new_token_version_ends_the_session = refl

abbrev rotated : Option Tokens × Auth
rotated = refresh settings 2 (tokens "2") "refresh_1" logged_in

other_digest : (tokens "2").refresh_token ≢ (tokens "1").refresh_token
other_digest e =
    ground (arith, (str_eq_iff (tokens "2").refresh_token (tokens "1").refresh_token).1 e)

refresh-Refreshes_example : Refreshes settings 2 "refresh_1" (tokens "2") logged_in rotated
refresh-Refreshes_example =
    refresh-Refreshes settings 2 (tokens "2") "refresh_1" logged_in (ground arith) (ground arith)
      other_digest

refresh_twice_example :
    Ends settings 4 (tokens "2") (refresh settings 3 (tokens "3") "refresh_1" rotated.1)
unfolding program
refresh_twice_example =
    refresh_twice settings 2 3 4 (tokens "2") (tokens "3") (tokens "2") "refresh_1" logged_in
      rotated.1 other_digest refl (ground arith)

abbrev session_state : State
session_state = record {
  session_id = "session";
  user_id = 1;
  subject = "dora@x.y";
  token_version = 1;
  access_key = "access_1";
  refresh_key = "refresh_1";
}

abbrev raced : Bool × Store
raced =
    rotate_refresh 2 100 10 session_state (next_state settings session_state (tokens "2"))
      "refresh_1" logged_in.store

rotate_refresh_once_example :
    rotate_refresh 3 100 10 session_state
      (next_state settings session_state (tokens "3"))
      "refresh_1"
      raced.1
    ≡ (false, raced.1)
unfolding program
rotate_refresh_once_example =
    rotate_refresh_once 2 3 100 10 session_state (next_state settings session_state (tokens "2"))
      (next_state settings session_state (tokens "3")) "refresh_1" logged_in.store raced.1
      other_digest refl

logout-LogsOut_example :
    LogsOut settings 4 "access_1"
      (access_state settings 3 "access_1" logged_in.store)
      logged_in.store
      (logout settings 3 "access_1" logged_in.store)
logout-LogsOut_example = logout-LogsOut settings 3 4 "access_1" logged_in.store

abbrev guessed : Auth
guessed = record empty {
  store = record (empty.store) {
    login_attempts = ("dora@x.y", record { value = 10; expires_at = 100 }) ∷ [];
    challenge_attempts = ("ticket", record { value = 5; expires_at = 100 }) ∷ [];
    challenges = ("ticket", record { value = 1; expires_at = 100 }) ∷ [];
  };
}

login_limit_example :
    login settings authenticator 1 "dora@x.y" "password" (tokens "1") "ticket" guessed ≡ (
      refused,
      record guessed {
        store = record (guessed.store) {
          login_attempts = ("dora@x.y", record { value = 11; expires_at = 100 }) ∷ [];
        };
      },
    )
unfolding program
login_limit_example =
    login_limit settings authenticator 1 "dora@x.y" "password" "ticket" (tokens "1") guessed
      (record { value = 10; expires_at = 100 }) refl (ground arith) (ground arith)

complete_mfa_challenge_limit_example :
    ((complete_mfa_challenge settings authenticator 1 "ticket" "code" (tokens "1") guessed).0
      ≡ none)
    × (lookup_text "ticket"
          (complete_mfa_challenge settings authenticator 1 "ticket" "code"
            (tokens "1")
            guessed).1.store.challenges
        ≡ none)
unfolding program
complete_mfa_challenge_limit_example =
    complete_mfa_challenge_limit settings authenticator 1 "ticket" "code" (tokens "1") guessed
      (record { value = 5; expires_at = 100 }) refl (ground arith) (ground arith)

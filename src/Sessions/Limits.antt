-- ===== src/Sessions/Limits.antt =====
-- Attempts are limited: ten logins in five minutes, and five codes for a challenge.
use rubrica_back.Base.{ℕ, suc, ◌<◌, ◌≤◌, ◌≡◌, String, none, some, arith, str_eq_iff}
use rubrica_back.Base.Dict.{lookup_text, insert_text, lookup_text-erase_text}
use rubrica_back.Store.{Instant}
use rubrica_back.Mfa.Service.{Authenticator}
use rubrica_back.Sessions.Store.{Entry, count_attempt}
use rubrica_back.Sessions.Service.{Settings, Auth, Tokens, refused, login, complete_mfa_challenge}

module _ (settings : Settings) (env : Authenticator) where
  open settings use {digest, strip}

  -- After ten attempts that still count, `login` is refused whatever the password is, it changes
  -- nothing but the counter of that address, and the time that the attempts count is not extended.
  pub login_limit :
      (now : Instant) (text password ticket : String) (new : Tokens) (w : Auth) (e : Entry ℕ)
      → lookup_text (digest (env.lower (strip text))) w.store.login_attempts ≡ some e
      → now < e.expires_at
      → 10 ≤ e.value
      → login settings env now text password new ticket w ≡ (
        refused,
        record w {
          store = record (w.store) {
            login_attempts =
                insert_text
                  (digest (env.lower (strip text)))
                  (record e { value = suc e.value })
                  w.store.login_attempts;
          };
        },
      )
  unfolding login count_attempt
  login_limit now text password ticket new w e found alive many = ground (arith, found, alive, many)

  -- After five codes that still count, another code for the challenge is refused, whatever it is,
  -- and the challenge is gone.
  pub complete_mfa_challenge_limit :
      (now : Instant) (ticket code : String) (new : Tokens) (w : Auth) (e : Entry ℕ)
      → lookup_text (digest ticket) w.store.challenge_attempts ≡ some e
      → now < e.expires_at
      → 5 ≤ e.value
      → ((complete_mfa_challenge settings env now ticket code new w).0 ≡ none)
        × (lookup_text
              (digest ticket)
              (complete_mfa_challenge settings env now ticket code new w).1.store.challenges
            ≡ none)
  unfolding complete_mfa_challenge count_attempt
  complete_mfa_challenge_limit now ticket code new w e found alive many = ground (
    arith,
    found,
    alive,
    many,
    lookup_text-erase_text (digest ticket) (digest ticket) w.store.challenges,
    str_eq_iff (digest ticket) (digest ticket),
  )

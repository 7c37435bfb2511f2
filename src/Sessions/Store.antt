-- ===== src/Sessions/Store.antt =====
-- What `SessionService` keeps in Redis, one dict for each kind of key. A key is the digest of its
-- token; an entry is gone when its time to live is over.
use rubrica_back.Base.{
  ℕ, ◌+◌, suc, String, Bool, true, false, not, Option, none, some, List, [], ◌∷◌, keep, str_eq, ltb,
  if◌then◌else◌,
}
use rubrica_back.Base.Dict.{Dict, lookup, insert, TextDict, lookup_text, insert_text}
use rubrica_back.Store.{Instant}
use rubrica_back.Workflow.Requests.{seconds}

pub record Entry (V : Type 0) : Type 0 where
  pub value : V
  pub expires_at : Instant

-- The JSON document of a session.
pub record State : Type 0 where
  pub session_id : String
  pub user_id : ℕ
  pub subject : String
  pub token_version : ℕ
  pub access_key : String
  pub refresh_key : String

pub record Store : Type 0 where
  pub sessions : TextDict (Entry State)
  pub access_keys : TextDict (Entry String)
  pub refresh_keys : TextDict (Entry String)
  pub used_refresh : TextDict (Entry String)
  pub challenges : TextDict (Entry ℕ)
  pub login_attempts : TextDict (Entry ℕ)
  pub challenge_attempts : TextDict (Entry ℕ)
  pub operation_attempts : TextDict (Entry ℕ)
  pub user_sessions : Dict (Entry (List String))

module _ {V : Type 0} where
  abbrev pub live : Instant → Option (Entry V) → Option V
  live now none = none
  live now (some e) = if ltb now e.expires_at then some e.value else none

  -- `GET`
  abbrev pub get : Instant → String → TextDict (Entry V) → Option V
  get now k d = live now (lookup_text k d)

  -- `SET … EX`
  abbrev pub put : Instant → ℕ → String → V → TextDict (Entry V) → TextDict (Entry V)
  put now ttl k v d = insert_text k (record { value = v; expires_at = now + seconds ttl }) d

-- `INCR`, and `EXPIRE` for the first attempt.
abbrev pub counted : Instant → ℕ → Option (Entry ℕ) → Entry ℕ
counted now ttl none = record { value = 1; expires_at = now + seconds ttl }
counted now ttl (some e) =
    if ltb now e.expires_at
    then record e { value = suc e.value }
    else record { value = 1; expires_at = now + seconds ttl }

unfoldable pub count_attempt : Instant → ℕ → String → TextDict (Entry ℕ) → ℕ × TextDict (Entry ℕ)
count_attempt now ttl k d =
    let e = counted now ttl (lookup_text k d) in (e.value, insert_text k e d)

abbrev pub has_text : String → List String → Bool
has_text a [] = false
has_text a (x ∷ xs) = let later = has_text a xs in if str_eq a x then true else later

-- `SMEMBERS`
unfoldable pub members : Instant → ℕ → Store → List String
members now user s = elim (live now (lookup user s.user_sessions)) [ none ↦ [] | some ids ↦ ids ]

-- `SADD` and `EXPIRE`
unfoldable pub add_member : Instant → ℕ → ℕ → String → Store → Store
add_member now ttl user id s =
    let ids = members now user s in
    record s {
      user_sessions =
          insert user
            (record {
              value = if has_text id ids then ids else id ∷ ids;
              expires_at = now + seconds ttl;
            })
            s.user_sessions;
    }

-- `SREM`
unfoldable pub remove_member : ℕ → String → Store → Store
remove_member user id s = elim (lookup user s.user_sessions) [
  | none ↦ s
  | some e ↦ record s {
    user_sessions =
        insert user (record e { value = keep (λ x. not (str_eq x id)) e.value }) s.user_sessions;
  }
]

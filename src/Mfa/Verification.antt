-- ===== src/Mfa/Verification.antt =====
-- What a verification of a code does, and that a one-time password counts once in its step.
use rubrica_back.Base.{
  ℕ, ◌+◌, ◌≤◌, ◌≡◌, String, Bool, true, false, some, List, [], ◌∷◌, ◌⊎◌, inl, inr, arith,
  Option-cases, Bool-cases, any, ◌&&◌, count, truthy, str_eq_iff,
}
use rubrica_back.Base.Actions.{Result, ok, err}
use rubrica_back.Base.Dict.{lookup_text, lookup_text-insert_text}
use rubrica_back.Mfa.Service.{
  User, RecoveryCode, Tables, Authenticator, is_usable, remaining_codes, consume_code,
  normalize_code, is_used_step, verify_recovery_code, verify_user_code,
}

-- The list of codes after one was consumed has one usable code less.
consume_code-count :
    (now : ℕ) (matches : String → Bool) (i : ℕ) (cs ds : List RecoveryCode)
    → consume_code now matches i cs ≡ some ds
    → count (is_usable i) ds + 1 ≡ count (is_usable i) cs
unfolding consume_code
consume_code-count now matches i [] ds h = absurd (ground arith)
consume_code-count now matches i (c ∷ cs) ds h =
    elim (Option-cases (consume_code now matches i cs)) [
      | inl e ↦ grind (arith, e)
      | inr (rest, e) ↦ grind (arith, e, consume_code-count now matches i cs rest e)
    ]

-- A code that is consumed is usable and matches.
consume_code-any :
    (now : ℕ) (matches : String → Bool) (i : ℕ) (cs ds : List RecoveryCode)
    → consume_code now matches i cs ≡ some ds
    → any (λ c. is_usable i c && matches c.code_hash) cs ≡ true
unfolding consume_code
consume_code-any now matches i [] ds h = absurd (ground arith)
consume_code-any now matches i (c ∷ cs) ds h = elim (Option-cases (consume_code now matches i cs)) [
  | inl e ↦ grind (arith, e)
  | inr (rest, e) ↦ grind (arith, e, consume_code-any now matches i cs rest e)
]

module _ (env : Authenticator) (now : ℕ) (u : User) (text : String) (db : Tables) where
  -- A usable recovery code of the user whose hash the text matches.
  abbrev pub matches_code : Bool
  matches_code =
      any (λ c. is_usable u.id c && env.verify_password (normalize_code env text) c.code_hash)
        db.recovery_codes

  -- What a verification has done: refused, nothing; accepted, either a one-time password that
  -- `verify_totp` accepts, of a step later than the last one, which is stored, or a recovery code that
  -- matches one that is usable, of which one is consumed.
  abbrev pub Verifies : Result Bool × Tables → Type 0
  Verifies (ok true, db') =
      ((ciphertext : String) × (truthy u.mfa_secret ≡ some ciphertext)
        × (env.verify_totp (env.decrypt_secret ciphertext) (normalize_code env text) now ≡ true)
        × (is_used_step env u.mfa_last_used_step (env.timecode (env.decrypt_secret ciphertext) now)
            ≡ false)
        × (lookup_text u.email db'.users
            ≡ some (record u {
              mfa_last_used_step = some (env.timecode (env.decrypt_secret ciphertext) now);
            }))
        × (db'.recovery_codes ≡ db.recovery_codes))
      ⊎ ((matches_code ≡ true)
          × (remaining_codes u.id db' + 1 ≡ remaining_codes u.id db)
          × (db'.users ≡ db.users))
  Verifies (ok false, db') = db' ≡ db
  Verifies (err _, db') = ⊥

  verify_recovery_code-Verifies :
      Verifies (verify_recovery_code env now u (normalize_code env text) db)
  unfolding verify_recovery_code remaining_codes
  verify_recovery_code-Verifies =
      elim (Option-cases
        (consume_code now (env.verify_password (normalize_code env text)) u.id db.recovery_codes)) [
          | inl e ↦ grind (arith, e)
          | inr (ds, e) ↦ grind (
            arith,
            e,
            consume_code-count now (env.verify_password (normalize_code env text)) u.id
                db.recovery_codes ds e,
            consume_code-any now (env.verify_password (normalize_code env text)) u.id
                db.recovery_codes ds e,
          )
        ]

  -- `verify_user_code` never raises. Where it refuses a code, nothing changes; where it accepts one,
  -- either `verify_totp` accepts it for the user's secret, its step is later than the last one that
  -- was used, and the step is stored, or it matches a usable recovery code of the user, and one usable
  -- code is consumed.
  pub verify_user_code-Verifies : Verifies (verify_user_code env now u text db)
  unfolding verify_user_code
  verify_user_code-Verifies = elim (Option-cases (truthy u.mfa_secret)) [
    | inl e ↦ grind (arith, e, verify_recovery_code-Verifies)
    | inr (ciphertext, e) ↦
        elim (Bool-cases
          (env.verify_totp (env.decrypt_secret ciphertext) (normalize_code env text) now)) [
            | inl good ↦ grind (arith, e, good, lookup_text-insert_text, str_eq_iff)
            | inr bad ↦ grind (arith, e, bad, verify_recovery_code-Verifies)
          ]
  ]

-- After a one-time password was accepted, no other one is accepted in the same step or an earlier
-- one: the call is refused and changes nothing.
pub verify_user_code_once :
    (env : Authenticator) (now later : ℕ) (u u' : User) (text text' ciphertext : String)
    → (db db' : Tables) → truthy u.mfa_secret ≡ some ciphertext
    → env.verify_totp (env.decrypt_secret ciphertext) (normalize_code env text) now ≡ true
    → verify_user_code env now u text db ≡ (ok true, db')
    → lookup_text u.email db'.users ≡ some u'
    → env.verify_totp (env.decrypt_secret ciphertext) (normalize_code env text') later ≡ true
    → env.timecode (env.decrypt_secret ciphertext) later
      ≤ env.timecode (env.decrypt_secret ciphertext) now
    → verify_user_code env later u' text' db' ≡ (ok false, db')
unfolding verify_user_code
verify_user_code_once env now later u u' text text' ciphertext db db' secret good done stored again
      step =
    grind (arith, secret, good, again, lookup_text-insert_text, str_eq_iff)

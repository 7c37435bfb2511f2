-- ===== src/Billing/Quota.antt =====
-- The two allowances: when a consumption is refused, and what it counts.
use rubrica_back.Base.{
  ℕ, zero, suc, ◌+◌, ◌≡◌, Option, none, some, arith, inl, inr, Option-cases, if◌then◌else◌, is_none,
  Bool, true, false, is_some, ◌||◌, Bool-cases,
}
use rubrica_back.Base.Actions.{Result, ok, err, integrity_error}
use rubrica_back.Base.Dict.{lookup, lookup-insert}
use rubrica_back.Store.{Account, Database, new_account, Instant, is_known}
use rubrica_back.Billing.Account.{account_entity, consume_signature, consume_document, read_account}

-- The account that a consumption works on: the stored one, revived, or a new one.
abbrev pub account_of : ℕ → Database → Account
account_of t db = elim (lookup t db.accounts) [
  | none ↦ new_account t
  | some a ↦ if is_none a.deleted_at then a else record a { deleted_at = none }
]

-- The accounts are stored under their tenants.
abbrev pub IsKeyedAt : ℕ → Database → Type 0
IsKeyedAt t db = (a : Account) → lookup t db.accounts ≡ some a → a.tenant_id ≡ t

abbrev IsRefused : Result (Unit {0}) → Type 0
IsRefused (ok _) = ⊥
IsRefused (err e) = e.status_code ≡ 402

-- How a consumption ends, by what the account has left: nothing is counted without a limit, the call
-- is refused with 402 when nothing is left, and one is counted otherwise.
abbrev pub Counts : Option ℕ → ℕ → Result (Unit {0}) → ℕ → Type 0
Counts none used r used' = (r ≡ ok tt) × (used' ≡ used)
Counts (some zero) used r used' = IsRefused r × (used' ≡ used)
Counts (some (suc _)) used r used' = (r ≡ ok tt) × (used' ≡ used + 1)

-- How a consumption ends where the account is stored or can be created, and where its tenant is not
-- stored either, so that the foreign key is violated.
abbrev pub Consumes : Bool → Option ℕ → ℕ → Result (Unit {0}) → ℕ → Type 0
Consumes true remaining used r used' = Counts remaining used r used'
Consumes false remaining used r used' = (r ≡ err integrity_error) × (used' ≡ used)

abbrev pub has_account : ℕ → Database → Bool
has_account t db = is_some (lookup t db.accounts) || is_known t db

module _ (now : Instant) (t : ℕ) (db : Database) (keyed : IsKeyedAt t db) where
  -- For every stored, deleted or missing account, stored under its tenant, the tenant of a missing one being stored: `consume_signature` is refused exactly when the
  -- account shows no signature remaining, counts one signature when some remain, and counts none
  -- when signatures are unlimited or access is paid. For an account and a tenant that are both missing it raises, and counts nothing.
  pub consume_signature-Counts :
      Consumes
        (has_account t db)
        (read_account now (account_of t db)).signatures_remaining
        (account_of t db).signatures_used
        (consume_signature now t db).0
        (account_of t (consume_signature now t db).1).signatures_used
  unfolding consume_signature account_entity read_account
  consume_signature-Counts = elim (Option-cases (lookup t db.accounts)) [
    | inl missing ↦ elim (Bool-cases (is_known t db)) [
      | inl known ↦ grind (arith, missing, known, lookup-insert)
      | inr unknown ↦ grind (arith, missing, unknown)
    ]
    | inr (a, found) ↦ grind (arith, lookup-insert, keyed a found)
  ]

  -- For every stored, deleted or missing account, stored under its tenant, the tenant of a missing one being stored: `consume_document` is refused exactly when the
  -- account shows no files remaining in the period, counts one file when some remain, and counts
  -- none when files are not limited. For an account and a tenant that are both missing it raises, and counts nothing.
  pub consume_document-Counts :
      Consumes
        (has_account t db)
        (read_account now (account_of t db)).files_remaining
        (account_of t db).files_uploaded_in_period
        (consume_document now t db).0
        (account_of t (consume_document now t db).1).files_uploaded_in_period
  unfolding consume_document account_entity read_account
  consume_document-Counts = elim (Option-cases (lookup t db.accounts)) [
    | inl missing ↦ elim (Bool-cases (is_known t db)) [
      | inl known ↦ grind (arith, missing, known, lookup-insert)
      | inr unknown ↦ grind (arith, missing, unknown)
    ]
    | inr (a, found) ↦ grind (arith, lookup-insert, keyed a found)
  ]

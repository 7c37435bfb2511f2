-- ===== src/Billing/Account.antt =====
-- The billing account of a tenant: its creation on first use, the two allowances, the usage period,
-- and the view that the API returns.
use rubrica_back.Base.{
  ℕ, ◌+◌, ◌-◌, Bool, true, false, ◌&&◌, ◌||◌, Option, none, some, ltb, leb, if◌then◌else◌, is_none,
  or_else,
}
use rubrica_back.Base.Actions.{
  ok, err, integrity_error, workflow_error, Action, pure, raise_if, modify, ◌>>=◌, ◌>>◌,
}
use rubrica_back.Base.Dict.{lookup}
use rubrica_back.Store.{Instant, Account, Database, new_account, save_account, is_known}
use rubrica_back.Billing.Access.{
  has_unlimited_signatures, paid_access_enabled, active_plan_file_limit, has_business_features,
}

-- `_account_entity`: the tenant's account, created on first use, when its foreign key to the tenant is
-- checked, and revived if it was deleted. Nothing in the code deletes an account; without autoflush a
-- revival would reach the queries of its own transaction only at the commit.
unfoldable pub account_entity : ℕ → Action Database Account
account_entity tenant_id db = elim (lookup tenant_id db.accounts) [
  | none ↦ elim (is_known tenant_id db) [
    | true ↦ (ok (new_account tenant_id), save_account (new_account tenant_id) db)
    | false ↦ (err integrity_error, db)
  ]
  | some a ↦
      let revived = record a { deleted_at = none } in
      elim (is_none a.deleted_at) [
        | true ↦ (ok a, db)
        | false ↦ (ok revived, save_account revived db)
      ]
]

-- `consume_signature`
unfoldable pub consume_signature : Instant → ℕ → Action Database (Unit {0})
unfolding account_entity
consume_signature now tenant_id = do
  account ← account_entity tenant_id
  let used = record account { signatures_used = account.signatures_used + 1 }
  elim (has_unlimited_signatures account || paid_access_enabled now account) [
    | true ↦ pure tt
    | false ↦ (do
      raise_if (leb account.free_signatures_limit account.signatures_used) (
          workflow_error "Free signature allowance exhausted. An active subscription is required"
            402)
      modify (save_account used))
  ]

-- `consume_document`
unfoldable pub consume_document : Instant → ℕ → Action Database (Unit {0})
unfolding account_entity
consume_document now tenant_id = do
  account ← account_entity tenant_id
  let used = record account { files_uploaded_in_period = account.files_uploaded_in_period + 1 }
  elim account.complimentary_lifetime [
    | true ↦ pure tt
    | false ↦ elim (active_plan_file_limit now account) [
      | none ↦ pure tt
      | some limit ↦ (do
        raise_if (leb limit account.files_uploaded_in_period) (
            workflow_error
              "Monthly file allowance exhausted. Wait for the next billing period or change plan"
              402)
        modify (save_account used))
    ]
  ]

abbrev pub starts_later : Option Instant → Instant → Bool
starts_later none start = false
starts_later (some current) start = ltb current start

-- `_sync_usage_period`
unfoldable pub sync_usage_period : Option Instant → Option Instant → Bool → Account → Account
sync_usage_period period_start period_end reset_usage a =
    let dated = record a { current_period_ends_at = or_else period_end a.current_period_ends_at } in
    elim period_start [
      | none ↦ dated
      | some start ↦
          let later = reset_usage && starts_later a.usage_period_starts_at start in
          record dated {
            files_uploaded_in_period = if later then 0 else a.files_uploaded_in_period;
            usage_period_starts_at =
                if is_none a.usage_period_starts_at || later
                then some start
                else a.usage_period_starts_at;
          }
    ]

-- `BillingAccountRead`, the part of it that is computed and not copied.
pub record AccountRead : Type 0 where
  pub signatures_remaining : Option ℕ
  pub unlimited_signatures : Bool
  pub files_limit : Option ℕ
  pub files_remaining : Option ℕ
  pub unlimited_files : Bool
  pub email_invitations_enabled : Bool

-- The value that `_account` returns for an account. `max(a - b, 0)` is subtraction on ℕ.
unfoldable pub read_account : Instant → Account → AccountRead
read_account now a = record {
  signatures_remaining =
      if has_unlimited_signatures a || paid_access_enabled now a
      then none
      else some (a.free_signatures_limit - a.signatures_used);
  unlimited_signatures = has_unlimited_signatures a;
  files_limit = active_plan_file_limit now a;
  files_remaining = elim (active_plan_file_limit now a) [
    | none ↦ none
    | some limit ↦
        if a.complimentary_lifetime then none else some (limit - a.files_uploaded_in_period)
  ];
  unlimited_files = a.complimentary_lifetime;
  email_invitations_enabled = has_business_features now a;
}

-- ===== src/Billing/Access.antt =====
-- What an account may do: paid access with its days of grace, the plan's file allowance, and the
-- features of business plans.
use rubrica_back.Base.{
  ℕ, Bool, true, false, ◌&&◌, ◌||◌, Option, none, some, ltb, if◌then◌else◌, is_some, is_none,
  truthy,
}
use rubrica_back.Base.Dict.{lookup}
use rubrica_back.Store.{
  Instant, AccountStatus, not_configured, active, past_due, cancelled, Account, Database,
}
use rubrica_back.Billing.Product.{normalize_product_code, plan_file_limit, is_business_product}

abbrev pub is_active : AccountStatus → Bool
is_active active = true
is_active _ = false

abbrev pub is_past_due : AccountStatus → Bool
is_past_due past_due = true
is_past_due _ = false

-- `_has_unlimited_signatures`
abbrev pub has_unlimited_signatures : Account → Bool
has_unlimited_signatures a = a.complimentary_lifetime

-- `grace > DateTimeService.utc_now()`
abbrev pub in_grace : Instant → Option Instant → Bool
in_grace now none = false
in_grace now (some grace) = ltb now grace

-- `_paid_access_enabled`
unfoldable pub paid_access_enabled : Instant → Account → Bool
paid_access_enabled now a =
    if is_active a.status then true else is_past_due a.status && in_grace now a.grace_period_ends_at

-- `_active_plan_file_limit`
unfoldable pub active_plan_file_limit : Instant → Account → Option ℕ
unfolding paid_access_enabled normalize_product_code plan_file_limit
active_plan_file_limit now a =
    if paid_access_enabled now a
    then plan_file_limit (normalize_product_code a.current_product_code)
    else none

-- `account.status in {"active", "pending", "past_due", "unpaid", "paused"}`
abbrev pub has_live_status : AccountStatus → Bool
has_live_status not_configured = false
has_live_status cancelled = false
has_live_status _ = true

-- `_subscription_requires_portal`
unfoldable pub subscription_requires_portal : Account → Bool
subscription_requires_portal a =
    is_some (truthy a.provider_subscription_id) && has_live_status a.status

-- The test that `business_features_enabled`, `email_invitations_enabled` and `_account` share.
unfoldable pub has_business_features : Instant → Account → Bool
unfolding paid_access_enabled normalize_product_code is_business_product
has_business_features now a =
    a.complimentary_lifetime
    || (is_business_product (normalize_product_code a.current_product_code)
        && paid_access_enabled now a)

-- The row that the queries of those two functions find: one that is not deleted.
unfoldable pub find_account : ℕ → Database → Option Account
find_account tenant_id db = elim (lookup tenant_id db.accounts) [
  | none ↦ none
  | some a ↦ if is_none a.deleted_at then some a else none
]

unfoldable pub business_features_enabled : Instant → ℕ → Database → Bool
unfolding find_account has_business_features
business_features_enabled now tenant_id db = elim (find_account tenant_id db) [
  | none ↦ false
  | some a ↦ has_business_features now a
]

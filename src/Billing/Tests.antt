-- ===== src/Billing/Tests.antt =====
-- Runs of billing on small inputs.
use rubrica_back.Base.{
  ◌+◌, ◌≡◌, refl, String, Bool, true, false, none, some, [], ◌∷◌, ◌⊎◌, ltb, arith, str_eq,
  if◌then◌else◌,
}
use rubrica_back.Base.Dict.{lookup, insert}
use rubrica_back.Store.{days, Account, active, Database, new_account}
use rubrica_back.Billing.Product.{Settings}
use rubrica_back.Billing.Resource.{Resource}
use rubrica_back.Billing.Access.{paid_access_enabled}
use rubrica_back.Billing.Account.{
  read_account, consume_signature, consume_document, sync_usage_period,
}
use rubrica_back.Billing.Effects.{after_failure}
use rubrica_back.Billing.Quota.{
  IsKeyedAt, account_of, has_account, Consumes, consume_signature-Counts, consume_document-Counts,
}
use rubrica_back.Billing.Usage.{
  StartsNoEarlier, StartsLater, sync_usage_period_forward, sync_usage_period_twice,
}
use rubrica_back.Billing.Grace.{after_failures, after_failures_grace}
use rubrica_back.Billing.Ordering.{view, receive, receive_order}

program : Unit {0}
unfolding lookup insert
program = tt

abbrev settings : Settings
settings = record {
  stripe_price = λ p i c. none;
  grace_period_days = 7;
  billing_provider = "stripe";
  public_web_url = "https://rubrica";
  upper = λ s. s;
  parse_uuid = λ s. if str_eq s "tenant-1" then some 1 else none;
}

abbrev subscribed : Account
subscribed = record (new_account 1) {
  status = active;
  current_product_code = some "rubrica_intermediate";
  files_uploaded_in_period = 79;
  usage_period_starts_at = some 1000;
}

-- Tenant 1 pays for the professional plan, tenant 2 has not used its free signatures.
abbrev database : Database
database = record {
  accounts = (1, subscribed) ∷ (2, new_account 2) ∷ [];
  payments = [];
  events = [];
  tenants = [];
  members = [];
  audit = [];
}

keyed_free : IsKeyedAt 2 database
unfolding program
keyed_free a h = grind arith

keyed_paid : IsKeyedAt 1 database
unfolding program
keyed_paid a h = grind arith

consume_signature-Counts_example :
    Consumes
      (has_account 2 database)
      (read_account 5 (account_of 2 database)).signatures_remaining
      (account_of 2 database).signatures_used
      (consume_signature 5 2 database).0
      (account_of 2 (consume_signature 5 2 database).1).signatures_used
consume_signature-Counts_example = consume_signature-Counts 5 2 database keyed_free

consume_document-Counts_example :
    Consumes
      (has_account 1 database)
      (read_account 5 (account_of 1 database)).files_remaining
      (account_of 1 database).files_uploaded_in_period
      (consume_document 5 1 database).0
      (account_of 1 (consume_document 5 1 database).1).files_uploaded_in_period
consume_document-Counts_example = consume_document-Counts 5 1 database keyed_paid

sync_usage_period_forward_example :
    let b = sync_usage_period (some 2000) (some 3000) true subscribed in
    StartsNoEarlier (some 1000) b.usage_period_starts_at
    × ((b.files_uploaded_in_period ≡ 79)
        ⊎ ((b.files_uploaded_in_period ≡ 0)
            × ◌≡◌ {A = Bool} true true
            × (b.usage_period_starts_at ≡ some 2000)
            × StartsLater (some 1000) (some 2000)))
sync_usage_period_forward_example =
    sync_usage_period_forward (some 2000) (some 3000) true subscribed

sync_usage_period_twice_example :
    let b = sync_usage_period (some 2000) (some 3000) true subscribed in
    let c = record b { files_uploaded_in_period = 4 } in
    sync_usage_period (some 2000) (some 3000) true c ≡ c
sync_usage_period_twice_example = sync_usage_period_twice (some 2000) (some 3000) true subscribed 4

after_failures_grace_example :
    (after_failures settings (10 ∷ 20 ∷ []) subscribed ≡ after_failure settings 10 subscribed)
    × (paid_access_enabled 30 (after_failures settings (10 ∷ 20 ∷ []) subscribed)
        ≡ ltb 30 (10 + days 7))
after_failures_grace_example = after_failures_grace settings 10 30 (20 ∷ []) subscribed refl

abbrev update : String → Resource
update status = record {
  id = some "sub_1";
  customer = some "cus_1";
  subscription = none;
  parent_subscription = none;
  status = some status;
  metadata_tenant_id = some "tenant-1";
  client_reference_id = none;
  metadata_product_code = some "rubrica_team";
  items = [];
  current_period_start = some 1;
  current_period_end = some 2;
  cancel_at_period_end = false;
  cancel_at = none;
  billing_reason = none;
  currency = none;
  amount_due = none;
  amount_paid = none;
  lines = [];
  period_start = none;
  period_end = none;
  paid_at = none;
}

receive_order_example :
    view settings
      (receive settings 9 (update "past_due") 6 (receive settings 8 (update "active") 5 subscribed))
    ≡ view settings (
        receive settings 9
          (update "active")
          5
          (receive settings 8 (update "past_due") 6 subscribed))
receive_order_example =
    receive_order settings 8 9 8 9 (update "active") (update "past_due") 5 6 subscribed
      (ground arith)

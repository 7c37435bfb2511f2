-- ===== src/Billing/DeliveryTests.antt =====
-- Runs of webhooks and checkouts on small inputs.
use rubrica_back.Base.{
  ◌≡◌, refl, String, true, false, Option, none, some, [], ◌∷◌, str_eq, arith, any, if◌then◌else◌,
  str_eq_iff, sym, ◌∙◌, ◌≢◌,
}
use rubrica_back.Base.Actions.{ok, err, integrity_error}
use rubrica_back.Base.Dict.{lookup, insert, lookup_text, insert_text, values}
use rubrica_back.Store.{flush_accounts, new_account, Member, enrolled, admin, Tenant, personal}
use rubrica_back.Billing.Product.{
  Settings, Plan, essential, professional, team, Interval, monthly, annual, Currency, brl, usd,
  plan_prices, product_code_of, price_for_currency, plan_of, interval_of, currency_of,
  normalize_product_code, plan_file_limit, plan_member_limit, is_business_product, add_prices,
  configured_prices,
}
use rubrica_back.Billing.Resource.{
  Resource, timestamp, first_price_id, product_code, subscription_period, tenant_id_of,
}
use rubrica_back.Billing.Webhook.{
  Event, genuine, invalid_signature, Provider, World, receive_webhook, tenant_of_customer,
  tenant_of_event, business_identity, claim_event, store_event, mark_failed, previous_account,
  apply_and_notify, process_event, attempt_event, handle_event,
}
use rubrica_back.Billing.Checkout.{create_checkout}
use rubrica_back.Billing.Access.{paid_access_enabled, find_account}
use rubrica_back.Billing.Account.{account_entity, sync_usage_period}
use rubrica_back.Billing.Effects.{event_kind, subscription_status, is_stale, after_subscription}
use rubrica_back.Billing.Events.{
  apply_business_identity, apply_subscription, apply_kind, apply_event,
}
use rubrica_back.Billing.Notice.{subscription_message, message_key, billing_emails, send_emails}
use rubrica_back.Tenant.Team.{order_members, place, precedes, reconcile_single_member_plan}
use rubrica_back.Billing.Delivery.{
  is_refused, application, Unharmed, receive_webhook_twice, receive_webhook-Unharmed,
}
use rubrica_back.Billing.Price.{IsUnambiguous, is_price, price_for_currency-product_code_of}
use rubrica_back.Billing.Purchase.{Opens, create_checkout-Opens}
use rubrica_back.Billing.Quota.{IsKeyedAt}
use rubrica_back.Tenant.Members.{Caller, member_limit}
use rubrica_back.Tenant.Identity.{Registration}

program : Unit {0}
unfolding lookup insert lookup_text insert_text values receive_webhook tenant_of_customer
    tenant_of_event business_identity claim_event store_event mark_failed previous_account
    apply_and_notify process_event attempt_event handle_event flush_accounts timestamp
    first_price_id product_code subscription_period tenant_id_of plan_prices product_code_of
    price_for_currency plan_of interval_of currency_of normalize_product_code plan_file_limit
    plan_member_limit is_business_product add_prices configured_prices paid_access_enabled
    find_account account_entity sync_usage_period event_kind subscription_status is_stale
    after_subscription apply_business_identity apply_subscription apply_kind apply_event
    subscription_message message_key billing_emails send_emails order_members place precedes
    reconcile_single_member_plan member_limit
program = tt

abbrev price : Plan → Interval → Currency → Option String
price professional monthly usd = some "price_professional"
price team annual brl = some "price_team"
price _ _ _ = none

abbrev shop : Settings
shop = record {
  stripe_price = price;
  grace_period_days = 10;
  billing_provider = "stripe";
  public_web_url = "https://rubrica";
  upper = λ s. s;
  parse_uuid = λ s. if str_eq s "tenant-1" then some 1 else none;
}

abbrev subscription : Resource
subscription = record {
  id = some "sub_1";
  customer = some "cus_1";
  subscription = none;
  parent_subscription = none;
  status = some "active";
  metadata_tenant_id = some "tenant-1";
  client_reference_id = none;
  metadata_product_code = some "rubrica_base";
  items = [];
  current_period_start = some 1;
  current_period_end = some 2;
  cancel_at_period_end = false;
  cancel_at = none;
  billing_reason = none;
  currency = none;
  amount_due = none;
  amount_paid = none;
  lines = [];
  period_start = none;
  period_end = none;
  paid_at = none;
}

abbrev event : Event
event = record {
  id = "evt_1";
  type = "customer.subscription.updated";
  created = some 5;
  resource = subscription;
}

-- The payload is the type of the event; the signature of "forged" is refused.
abbrev stripe : Provider
stripe = record {
  construct_webhook_event = λ payload signature.
      if str_eq signature "forged"
      then invalid_signature
      else genuine (record event { type = payload });
  retrieve_business_identity = λ c. none;
  accepts = λ m. true;
  retrieve_subscription = λ s. some subscription;
  create_customer = λ m n t. some "cus_1";
  create_checkout_session = λ s. some "https://stripe/checkout";
  create_portal_session = λ s. some "https://stripe/portal";
}

abbrev owner : Member
owner = record {
  id = 10;
  tenant_id = 1;
  auth_user_id = "ana@x.y";
  auth_user_uuid = none;
  role = admin;
  status = enrolled;
  joined_at = some 1;
  created_at = 1;
  deleted_at = none;
}

abbrev home : Tenant
home = record {
  id = 1;
  name = "Ana";
  slug = "ana";
  default_locale = "en";
  country_code = none;
  timezone = "UTC";
  currency = "USD";
  kind = personal;
  legal_name = none;
  registration_country = none;
  registration_type = none;
  registration_value_encrypted = none;
  registration_lookup_hmac = none;
  registration_masked = none;
  registration_verification_status = none;
  registration_source = none;
  registration_provider_reference = none;
  deleted_at = none;
}

abbrev start : World
start = record {
  database = record {
    accounts = (1, new_account 1) ∷ [];
    payments = [];
    events = [];
    tenants = (1, home) ∷ [];
    members = owner ∷ [];
    audit = [];
  };
  sent = [];
}

abbrev protect_none : String → Option Registration
protect_none s = none

abbrev same : String → String
same s = s

abbrev delivered : World
delivered =
    (receive_webhook shop protect_none same stripe 9 "customer.subscription.updated" "s" start).1

-- The first delivery is applied.
is_applied :
    receive_webhook shop protect_none same stripe 9 "customer.subscription.updated" "s" start
    ≡ (ok false, delivered)
unfolding program
is_applied = refl

receive_webhook_twice_example :
    receive_webhook shop protect_none same stripe 20 "customer.subscription.updated" "t" delivered
    ≡ (ok true, delivered)
receive_webhook_twice_example =
    receive_webhook_twice shop protect_none same stripe 9 20 "customer.subscription.updated" "s"
      "customer.subscription.updated" "t" event event start delivered false refl refl refl
      is_applied

-- The customer of the event is another tenant's customer already.
abbrev taken : World
taken = record start {
  database = record (start.database) {
    accounts =
        (1, new_account 1)
        ∷ (2, record (new_account 2) { provider_customer_id = some "cus_1" })
        ∷ [];
  };
}

taken-application : application shop protect_none same stripe 9 event taken ≡ err integrity_error
unfolding program
taken-application = refl

taken-is_refused : is_refused shop protect_none same stripe event taken ≡ false
unfolding program
taken-is_refused = refl

receive_webhook-Unharmed_example :
    Unharmed shop protect_none same stripe "evt_1" taken integrity_error
      (receive_webhook shop protect_none same stripe 9 "customer.subscription.updated" "s" taken)
unfolding lookup_text
receive_webhook-Unharmed_example =
    receive_webhook-Unharmed shop protect_none same stripe 9 "customer.subscription.updated" "s"
      event taken integrity_error refl refl taken-is_refused taken-application

-- An event that names a tenant that is not stored is answered as a duplicate, and lost.
abbrev vacant : World
vacant = record start { database = record (start.database) { accounts = []; tenants = [] } }

an_event_of_an_unknown_tenant_is_lost :
    receive_webhook shop protect_none same stripe 9 "customer.subscription.updated" "s" vacant
    ≡ (ok true, vacant)
unfolding program
an_event_of_an_unknown_tenant_is_lost = refl

no_essential : (id : String) → any (is_price id) (plan_prices shop essential) ≡ false
unfolding plan_prices
no_essential id = refl

professional_only :
    (id : String)
    → any (is_price id) (plan_prices shop professional) ≡ true
    → id ≡ "price_professional"
unfolding plan_prices
professional_only id h = grind (arith, str_eq_iff id "price_professional")

team_only : (id : String) → any (is_price id) (plan_prices shop team) ≡ true → id ≡ "price_team"
unfolding plan_prices
team_only id h = grind (arith, str_eq_iff id "price_team")

prices_differ : ◌≢◌ {A = String} "price_professional" "price_team"
prices_differ e = absurd (ground (arith, (str_eq_iff "price_professional" "price_team").1 e))

shop-IsUnambiguous : IsUnambiguous shop
shop-IsUnambiguous id essential q h k = absurd (grind (arith, no_essential id))
shop-IsUnambiguous id p essential h k = absurd (grind (arith, no_essential id))
shop-IsUnambiguous id professional professional h k = refl
shop-IsUnambiguous id professional team h k =
    absurd (prices_differ (sym (professional_only id h) ∙ team_only id k))
shop-IsUnambiguous id team professional h k =
    absurd (prices_differ (sym (professional_only id k) ∙ team_only id h))
shop-IsUnambiguous id team team h k = refl

priced : price_for_currency shop "USD" "rubrica_intermediate" "month" ≡ ok "price_professional"
unfolding program
priced = refl

price_for_currency-product_code_of_example :
    product_code_of shop (some "price_professional") (some "rubrica_team") ≡ "rubrica_intermediate"
price_for_currency-product_code_of_example =
    price_for_currency-product_code_of shop shop-IsUnambiguous "USD" "rubrica_intermediate" "month"
      "price_professional" (some "rubrica_team") priced

start-IsKeyedAt : IsKeyedAt 1 start.database
unfolding program
start-IsKeyedAt a h = grind arith

abbrev ana : Caller
ana = record { subject = "ana@x.y"; user_id = none }

create_checkout-Opens_example :
    Opens "stripe" 1 "rubrica_intermediate" start.database
      (create_checkout shop stripe 9 1 ana "ana@x.y" "rubrica_intermediate" "month" start.database)
create_checkout-Opens_example =
    create_checkout-Opens shop stripe 9 1 ana "ana@x.y" "rubrica_intermediate" "month"
      start.database start-IsKeyedAt

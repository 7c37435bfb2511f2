-- ===== src/Billing/Effects.antt =====
-- What the events of the billing provider make of the account and of a payment
-- (`_apply_event` and `_record_payment`), without the effects on other entities.
use rubrica_back.Base.{
  ℕ, ◌+◌, String, Bool, true, false, ◌&&◌, ◌||◌, not, Option, none, some, str_eq, ltb,
  if◌then◌else◌, is_none, or_else, truthy, get_or,
}
use rubrica_back.Base.Actions.{ok, err, workflow_error, Action}
use rubrica_back.Base.Dict.{lookup_text, insert_text}
use rubrica_back.Store.{
  Instant, days, AccountStatus, not_configured, pending, active, past_due, unpaid, cancelled,
  paused, Account, paid, refused, Payment, Database,
}
use rubrica_back.Billing.Product.{Settings}
use rubrica_back.Billing.Resource.{
  Resource, timestamp, product_code, subscription_period, invoice_service_period,
}
use rubrica_back.Billing.Access.{is_active, is_past_due}
use rubrica_back.Billing.Account.{sync_usage_period}
use text.Mathlib.Text.{starts_with}

-- The event types that the code tells apart.
pub data EventKind : Type 0 where
  checkout_completed payment_succeeded payment_failed : EventKind
  subscription_created subscription_updated subscription_other unrelated : EventKind

unfoldable pub event_kind : String → EventKind
event_kind name =
    if str_eq name "checkout.session.completed"
    then checkout_completed
    else if str_eq name "invoice.payment_succeeded"
    then payment_succeeded
    else if str_eq name "invoice.payment_failed"
    then payment_failed
    else if str_eq name "customer.subscription.created"
    then subscription_created
    else if str_eq name "customer.subscription.updated"
    then subscription_updated
    else if starts_with name "customer.subscription."
    then subscription_other
    else unrelated

-- `_subscription_status`
unfoldable pub subscription_status : String → AccountStatus
subscription_status s =
    if str_eq s "active" || str_eq s "trialing"
    then active
    else if str_eq s "past_due" || str_eq s "incomplete"
    then past_due
    else if str_eq s "unpaid"
    then unpaid
    else if str_eq s "canceled" || str_eq s "incomplete_expired"
    then cancelled
    else if str_eq s "paused"
    then paused
    else not_configured

-- `account.status in {"active", "cancelled", "unpaid", "paused"}`
abbrev pub ends_grace : AccountStatus → Bool
ends_grace active = true
ends_grace cancelled = true
ends_grace unpaid = true
ends_grace paused = true
ends_grace _ = false

-- The writes that every event makes first: the provider, and the customer if the event has one, which
-- `flush_accounts` compares with the other accounts at the commit.
abbrev pub bind_customer : Resource → Account → Account
bind_customer r a = record a {
  provider = some "stripe";
  provider_customer_id = or_else (truthy r.customer) a.provider_customer_id;
}

abbrev pub is_cycle : Option String → Bool
is_cycle none = false
is_cycle (some reason) = str_eq reason "subscription_cycle"

-- The test of a subscription event against the last one that was applied.
unfoldable pub is_stale : Option Instant → Account → Bool
is_stale created a = elim created [
  | none ↦ false
  | some c ↦ elim a.last_provider_event_created_at [ none ↦ false | some last ↦ ltb c last ]
]

module _ (settings : Settings) where
  -- The entity of `_record_payment` after its writes: every column but the tenant is written, so
  -- only the tenant of a row that exists is kept.
  unfoldable pub updated_payment : ℕ → Bool → Resource → String → String → Option Payment → Payment
  updated_payment tenant_id succeeded r payment_id event_id old =
      let period = invoice_service_period r in
      record {
        tenant_id = elim old [ none ↦ tenant_id | some p ↦ p.tenant_id ];
        provider_payment_id = payment_id;
        provider_subscription_id = or_else (truthy r.subscription) (truthy r.parent_subscription);
        provider_event_id = event_id;
        status = if succeeded then paid else refused;
        currency = settings.upper (get_or r.currency "USD");
        amount_due_minor = get_or r.amount_due 0;
        amount_paid_minor = get_or r.amount_paid 0;
        period_starts_at = period.0;
        period_ends_at = period.1;
        paid_at = timestamp r.paid_at;
      }

  -- `_record_payment`; `str(None)` would be a text, so only an absent or empty id is refused.
  unfoldable pub record_payment : ℕ → Bool → Resource → String → Action Database (Unit {0})
  record_payment tenant_id succeeded r provider_event_id db = elim (truthy r.id) [
    | none ↦ (err (workflow_error "Stripe invoice does not include an id" 422), db)
    | some payment_id ↦
        let event_type : String =
          if succeeded then "invoice.payment_succeeded" else "invoice.payment_failed" in
        let event_id : String = get_or (truthy (some provider_event_id)) event_type in
        let row =
          updated_payment tenant_id succeeded r payment_id event_id
            (lookup_text payment_id db.payments) in
        (ok tt, record db { payments = insert_text payment_id row db.payments })
  ]

  -- `checkout.session.completed`
  unfoldable pub after_checkout : Resource → Account → Account
  after_checkout r a = record a {
    provider_subscription_id = truthy r.subscription;
    current_product_code = some (product_code settings r);
    status = if is_active a.status then active else pending;
  }

  -- `invoice.payment_succeeded`
  unfoldable pub after_payment : Resource → Account → Account
  after_payment r a =
      let period = invoice_service_period r in
      sync_usage_period period.0 period.1 (is_cycle r.billing_reason)
        (record a { status = active; grace_period_ends_at = none })

  abbrev pub grace_end : Instant → Instant
  grace_end now = now + days settings.grace_period_days

  -- `invoice.payment_failed`: the days of grace begin once.
  unfoldable pub after_failure : Instant → Account → Account
  after_failure now a =
      if not (is_past_due a.status) || is_none a.grace_period_ends_at
      then record a { status = past_due; grace_period_ends_at = some (grace_end now) }
      else a

  -- A subscription event, after that test.
  unfoldable pub after_subscription : Instant → Resource → Option Instant → Account → Account
  after_subscription now r created a =
      let status : AccountStatus = subscription_status (get_or r.status "") in
      let period = subscription_period r in
      let moved = record a {
        provider_subscription_id = some (get_or r.id "None");
        current_product_code = some (product_code settings r);
        status = status;
        grace_period_ends_at =
            if is_past_due status && is_none a.grace_period_ends_at
            then some (grace_end now)
            else if ends_grace status
            then none
            else a.grace_period_ends_at;
        last_provider_event_created_at = or_else created a.last_provider_event_created_at;
        cancel_at_period_end = r.cancel_at_period_end;
        cancels_at =
            if r.cancel_at_period_end then or_else (timestamp r.cancel_at) period.1 else none;
      } in
      if is_active status
      then sync_usage_period period.0 period.1 false moved
      else record moved { current_period_ends_at = or_else period.1 a.current_period_ends_at }

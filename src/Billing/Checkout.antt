-- ===== src/Billing/Checkout.antt =====
-- The calls of a tenant's administrator: the account, the checkout of a first subscription, the portal
-- for a change of plan, and the synchronization with the provider.
use Prim.Native.String.{◌++◌ as ◌<>◌}
use rubrica_back.Base.{
  ℕ, String, Bool, true, ◌&&◌, Option, none, some, ◌++◌, str_eq, if◌then◌else◌, truthy, get_or,
}
use rubrica_back.Base.Actions.{
  Result, ok, err, workflow_error, Action, pure, or_raise, raise_if, modify, transaction, ◌>>=◌,
  ◌>>◌,
}
use rubrica_back.Store.{
  Instant, Account, AccountStatus, Tenant, Role, Database, save_account, flush_accounts,
}
use rubrica_back.Billing.Product.{
  Settings, normalize_product_code, is_business_product, price_for_currency,
}
use rubrica_back.Billing.Resource.{Resource, product_code}
use rubrica_back.Billing.Access.{is_active, subscription_requires_portal}
use rubrica_back.Billing.Account.{account_entity, AccountRead, read_account}
use rubrica_back.Billing.Effects.{subscription_updated}
use rubrica_back.Billing.Events.{BusinessIdentity, apply_event}
use rubrica_back.Billing.Notice.{billing_emails, send_emails}
use rubrica_back.Billing.Webhook.{
  CheckoutSession, PortalSession, Provider, World, in_database, rollback,
}
use rubrica_back.Tenant.Members.{is_admin, Caller, require_role}
use rubrica_back.Tenant.Identity.{Registration, find_tenant}

-- `_account`
unfoldable pub account : Instant → ℕ → Caller → (Role → Bool) → Action Database AccountRead
account now tenant_id caller roles = transaction (do
  require_role now tenant_id caller roles true
  a ← account_entity tenant_id
  pure (read_account now a))

-- What `synchronize_account` reports of a change of plan.
pub record PlanChange : Type 0 where
  pub event_id : String
  pub resource : Resource
  pub previous_status : AccountStatus
  pub previous_product : String

module _ (settings : Settings) (provider : Provider) where
  open settings use {public_web_url, billing_provider}

  -- The customer of the account, created on first use. That it is no other account's customer is
  -- checked at the commit.
  unfoldable pub customer_of : ℕ → String → Tenant → Account → Action Database String
  customer_of tenant_id subject tenant a = elim (truthy a.provider_customer_id) [
    | some c ↦ pure c
    | none ↦ (do
      c ←
          or_raise (provider.create_customer subject tenant.name tenant_id)
            (workflow_error "Stripe is unavailable" 502)
      modify (
          save_account
            (record a { provider = some billing_provider; provider_customer_id = some c }))
      pure c)
  ]

  -- `create_checkout`; `subject` is the caller's e-mail address as it was given.
  unfoldable pub create_checkout :
      Instant → ℕ → Caller → String → String → String → Action Database String
  create_checkout now tenant_id caller subject code interval = transaction λ start.
      (do
        require_role now tenant_id caller is_admin true
        tenant ← or_raise (find_tenant tenant_id start) (workflow_error "Tenant not found" 404)
        a ← account_entity tenant_id
        raise_if a.complimentary_lifetime
            (workflow_error "This account already has complimentary lifetime access" 409)
        raise_if (subscription_requires_portal a)
            (workflow_error "Use the billing portal to change the existing subscription" 409)
        raise_if
            (is_active a.status
              && str_eq (normalize_product_code (some code))
                  (normalize_product_code a.current_product_code))
            (workflow_error "The selected plan is already active" 409)
        price ← λ db. (price_for_currency settings tenant.currency code interval, db)
        customer ← customer_of tenant_id subject tenant a
        let session : CheckoutSession = record {
          customer_id = customer;
          price_id = price;
          product_code = code;
          tenant_id = tenant_id;
          success_url = public_web_url <> "/plan?checkout=success";
          cancel_url = public_web_url <> "/plan?checkout=cancelled";
        }
        url ←
            or_raise (provider.create_checkout_session session)
              (workflow_error "Stripe is unavailable" 502)
        flush_accounts
        pure url)
        start

  -- `create_portal`
  unfoldable pub create_portal : Instant → ℕ → Caller → String → String → Action Database String
  create_portal now tenant_id caller code interval = transaction λ start.
      (do
        require_role now tenant_id caller is_admin true
        a ← account_entity tenant_id
        customer ←
            or_raise (truthy a.provider_customer_id)
              (workflow_error "Stripe customer is not configured" 409)
        raise_if
            (str_eq (normalize_product_code a.current_product_code)
              (normalize_product_code (some code)))
            (workflow_error "The selected plan is already active" 409)
        tenant ← or_raise (find_tenant tenant_id start) (workflow_error "Tenant not found" 404)
        price ← λ db. (price_for_currency settings tenant.currency code interval, db)
        let return_url : String = public_web_url <> "/plan"
        let session : PortalSession = record {
          customer_id = customer;
          return_url = return_url;
          subscription_id = if is_active a.status then a.provider_subscription_id else none;
          completion_url =
              return_url
              <> "?billing=updated&from_plan="
              <> normalize_product_code a.current_product_code;
          price_id = price;
        }
        or_raise (provider.create_portal_session session)
            (workflow_error "Stripe is unavailable" 502))
        start

  -- The identity that a synchronization needs, if any.
  unfoldable pub synchronized_identity : Account → Resource → Result (Option BusinessIdentity)
  synchronized_identity a r = elim (truthy a.provider_customer_id) [
    | none ↦ ok none
    | some c ↦
        if is_business_product (product_code settings r)
        then elim (provider.retrieve_business_identity c) [
          | none ↦ err (workflow_error "Stripe is unavailable" 502)
          | some i ↦ ok (some i)
        ]
        else ok none
  ]

  module _ (protect : String → Option Registration) (strip : String → String) where
    -- The transaction of `synchronize_account`.
    unfoldable pub apply_current_subscription :
        Instant → ℕ → Caller → Action Database (Option PlanChange)
    apply_current_subscription now tenant_id caller = do
      require_role now tenant_id caller is_admin true
      a ← account_entity tenant_id
      subscription ←
          or_raise (truthy a.provider_subscription_id)
            (workflow_error "Stripe subscription is not configured" 409)
      r ←
          or_raise (provider.retrieve_subscription subscription)
            (workflow_error "Stripe is unavailable" 502)
      identity ← λ db. (synchronized_identity a r, db)
      apply_event settings protect strip now subscription_updated r (some tenant_id) none ""
          identity
      b ← account_entity tenant_id
      flush_accounts
      let previous : String = normalize_product_code a.current_product_code
      let current : String = normalize_product_code b.current_product_code
      pure (
          if str_eq current previous
          then none
          else some (record {
            event_id = "sync:" <> get_or b.provider_subscription_id "None" <> ":" <> current;
            resource = r;
            previous_status = a.status;
            previous_product = previous;
          }))

    -- `synchronize_account`; a mail that is not delivered is logged only.
    unfoldable pub synchronize_account : Instant → ℕ → Caller → Action World AccountRead
    synchronize_account now tenant_id caller = do
      change ← rollback (in_database (apply_current_subscription now tenant_id caller))
      modify (λ w. elim change [
        | none ↦ w
        | some c ↦ record w {
          sent =
              w.sent
              ++ send_emails provider.accepts (
                  billing_emails settings c.event_id subscription_updated (some tenant_id)
                    c.resource (some c.previous_status) (some c.previous_product) w.database);
        }
      ])
      in_database (account now tenant_id caller is_admin)

-- ===== src/Billing/Webhook.antt =====
-- `receive_webhook`: an event of the provider is stored once, applied in one transaction, and marked
-- as failed where that transaction is rolled back.
use rubrica_back.Base.{
  ℕ, String, Bool, true, false, ◌&&◌, Option, none, some, List, ◌++◌, find, if◌then◌else◌, is_some,
  truthy, get_or,
}
use rubrica_back.Base.Actions.{Result, ok, err, workflow_error, Action, pure, modify, ◌>>=◌, ◌>>◌}
use rubrica_back.Base.Dict.{lookup_text, insert_text, values}
use rubrica_back.Store.{
  Instant, from_timestamp, Account, AccountStatus, BillingEvent, EventStatus, received, processed,
  ignored_stale, failed, Database, flush_accounts, is_known,
}
use rubrica_back.Billing.Product.{Settings, normalize_product_code, is_business_product}
use rubrica_back.Billing.Resource.{Resource, product_code, tenant_id_of}
use rubrica_back.Billing.Account.{account_entity}
use rubrica_back.Billing.Effects.{
  EventKind, event_kind, checkout_completed, subscription_created, subscription_updated,
}
use rubrica_back.Billing.Events.{BusinessIdentity, apply_event}
use rubrica_back.Billing.Notice.{Email, billing_emails, send_emails}
use rubrica_back.Tenant.Identity.{Registration, same_text}

-- An event as the provider sends it.
pub record Event : Type 0 where
  pub id : String
  pub type : String
  pub created : Option ℕ
  pub resource : Resource

-- How `construct_webhook_event` ends.
pub data Construction : Type 0 where
  genuine : Event → Construction
  invalid_signature : Construction
  unavailable : Construction

-- The arguments of `create_checkout_session` and `create_portal_session`.
pub record CheckoutSession : Type 0 where
  pub customer_id : String
  pub price_id : String
  pub product_code : String
  pub tenant_id : ℕ
  pub success_url : String
  pub cancel_url : String

pub record PortalSession : Type 0 where
  pub customer_id : String
  pub return_url : String
  pub subscription_id : Option String
  pub completion_url : String
  pub price_id : String

-- `BillingProvider`, of which a call that raises `BillingProviderError` answers `none`, and the
-- mail service, which accepts a mail or not.
pub record Provider : Type 0 where
  pub construct_webhook_event : String → String → Construction
  pub retrieve_business_identity : String → Option BusinessIdentity
  pub accepts : Email → Bool
  pub retrieve_subscription : String → Option Resource
  -- from an e-mail address, a name and a tenant: the customer
  pub create_customer : String → String → ℕ → Option String
  pub create_checkout_session : CheckoutSession → Option String
  pub create_portal_session : PortalSession → Option String

-- The database and the mails that are sent, which no rollback takes back.
pub record World : Type 0 where
  pub database : Database
  pub sent : List Email

abbrev pub in_database : {A : Type 0} → Action Database A → Action World A
in_database m w = let (r, db) = m w.database in (r, record w { database = db })

-- `with SessionLocal.begin() as database:`
abbrev pub rollback : {A : Type 0} → Action World A → Action World A
rollback m w =
    let (r, v) = m w in
    elim r [ ok a ↦ (ok a, v) | err e ↦ (err e, record v { database = w.database }) ]

-- `status in {"processed", "ignored_stale"}`
abbrev pub is_settled : EventStatus → Bool
is_settled processed = true
is_settled ignored_stale = true
is_settled _ = false

abbrev pub settles : Option BillingEvent → Bool
settles none = false
settles (some e) = is_settled e.status

-- `_event_created_at`
abbrev pub event_created_at : Instant → Event → Instant
event_created_at now e = elim e.created [ none ↦ now | some n ↦ from_timestamp n ]

-- The account of a customer, which is unique.
unfoldable pub tenant_of_customer : String → Database → Option ℕ
tenant_of_customer customer db =
    elim (find (λ a. same_text a.provider_customer_id customer) (values db.accounts)) [
      | none ↦ none
      | some a ↦ some a.tenant_id
    ]

-- The tenant that the resource names, or else the one of its customer.
unfoldable pub tenant_of_event : Settings → Resource → Database → Option ℕ
tenant_of_event settings r db = elim (tenant_id_of settings r) [
  | some t ↦ some t
  | none ↦ elim (truthy r.customer) [ none ↦ none | some c ↦ tenant_of_customer c db ]
]

abbrev pub names_identity : EventKind → Bool
names_identity checkout_completed = true
names_identity subscription_created = true
names_identity subscription_updated = true
names_identity _ = false

-- The identity that the event needs, if any.
unfoldable pub business_identity :
    Settings → Provider → EventKind → Option ℕ → Resource → Result (Option BusinessIdentity)
business_identity settings provider kind tenant r = elim (truthy r.customer) [
  | none ↦ ok none
  | some c ↦
      if is_some tenant && names_identity kind && is_business_product (product_code settings r)
      then elim (provider.retrieve_business_identity c) [
        | none ↦ err (workflow_error "Stripe customer identity is unavailable" 503)
        | some i ↦ ok (some i)
      ]
      else ok none
]

-- The foreign key of an event to its tenant, which may be null.
abbrev pub refers : Option ℕ → Database → Bool
refers none db = true
refers (some t) db = is_known t db

-- The insertion of the event's row; `true` is an `IntegrityError`, of its unique key or of its foreign
-- key.
unfoldable pub claim_event : BillingEvent → Database → Bool × Database
claim_event row db = elim (lookup_text row.provider_event_id db.events) [
  | some _ ↦ (true, db)
  | none ↦ elim (refers row.tenant_id db) [
    | true ↦ (false, record db { events = insert_text row.provider_event_id row db.events })
    | false ↦ (true, db)
  ]
]

-- `if existing_status is None`; `true` is answered as a duplicate
unfoldable pub store_event : BillingEvent → Database → Bool × Database
unfolding claim_event
store_event row db = elim (lookup_text row.provider_event_id db.events) [
  | some _ ↦ (false, db)
  | none ↦ claim_event row db
]

-- The last handler: the event is marked in a transaction of its own, and the error raised again.
unfoldable pub mark_failed : String → Database → Database
mark_failed event_id db = elim (lookup_text event_id db.events) [
  | none ↦ db
  | some e ↦ record db { events = insert_text event_id (record e { status = failed }) db.events }
]

unfoldable pub previous_account : Option ℕ → Action Database (Option Account)
previous_account none db = (ok none, db)
previous_account (some t) db = (do a ← account_entity t; pure (some a)) db

module _ (settings : Settings) (protect : String → Option Registration) (strip : String → String)
    (provider : Provider) where
  -- The body of the second transaction after its row is found and not yet settled; the result says
  -- whether the event was applied.
  unfoldable pub apply_and_notify :
      Instant → Event → Option ℕ → Option BusinessIdentity → BillingEvent → Action World Bool
  apply_and_notify now e tenant identity row = do
    previous ← in_database (previous_account tenant)
    let kind : EventKind = event_kind e.type
    let previous_status : Option AccountStatus = elim previous [
      | none ↦ none
      | some a ↦ some a.status
    ]
    let previous_product : Option String = elim previous [
      | none ↦ none
      | some a ↦ some (normalize_product_code a.current_product_code)
    ]
    applied ← in_database (
        apply_event settings protect strip now kind e.resource tenant
          (some (event_created_at now e)) e.id identity)
    modify (λ w.
        if applied
        then record w {
          sent =
              w.sent
              ++ send_emails provider.accepts (
                  billing_emails settings e.id kind tenant e.resource previous_status
                    previous_product w.database);
        }
        else w)
    in_database (
        modify (λ db. record db {
          events =
              insert_text e.id
                (record row {
                  status = if applied then processed else ignored_stale;
                  processed_at = some now;
                })
                db.events;
        }))
    in_database flush_accounts
    pure false

  -- The second transaction; the result says whether the event is a duplicate.
  unfoldable pub process_event :
      Instant → Event → Option ℕ → Option BusinessIdentity → Action World Bool
  process_event now e tenant identity = rollback λ w. elim (lookup_text e.id w.database.events) [
    | none ↦ (err (workflow_error "Persisted billing event was not found" 500), w)
    | some row ↦ elim (is_settled row.status) [
      | true ↦ (ok true, w)
      | false ↦ apply_and_notify now e tenant identity row w
    ]
  ]

  -- The second transaction, and the last handler where it raises.
  unfoldable pub attempt_event :
      Instant → Event → Option ℕ → Option BusinessIdentity → Action World Bool
  attempt_event now e tenant identity w =
      let (r, v) = process_event now e tenant identity w in
      elim r [
        | ok d ↦ (ok d, v)
        | err x ↦ (err x, record v { database = mark_failed e.id v.database })
      ]

  -- The row of a new event; the hash and the extract of the payload are left out.
  abbrev pub new_row : Event → Option ℕ → BillingEvent
  new_row e tenant = record {
    tenant_id = tenant;
    provider_event_id = e.id;
    event_type = e.type;
    resource_id = get_or e.resource.id "unknown";
    status = received;
    processed_at = none;
  }

  -- What `receive_webhook` does with a new event or one that has failed before.
  unfoldable pub handle_event : Instant → Event → Action World Bool
  handle_event now e w =
      let tenant : Option ℕ = tenant_of_event settings e.resource w.database in
      elim (business_identity settings provider (event_kind e.type) tenant e.resource) [
        | err x ↦ (err x, w)
        | ok identity ↦
            let (claimed, db) = store_event (new_row e tenant) w.database in
            elim claimed [
              | true ↦ (ok true, w)
              | false ↦ attempt_event now e tenant identity (record w { database = db })
            ]
      ]

  -- `receive_webhook`; the result is the field `duplicate` of the answer.
  unfoldable pub receive_webhook : Instant → String → String → Action World Bool
  receive_webhook now payload signature w =
      elim (provider.construct_webhook_event payload signature) [
        | invalid_signature ↦ (err (workflow_error "Invalid Stripe webhook signature" 400), w)
        | unavailable ↦ (err (workflow_error "Stripe is not configured" 503), w)
        | genuine e ↦ elim (settles (lookup_text e.id w.database.events)) [
          | true ↦ (ok true, w)
          | false ↦ handle_event now e w
        ]
      ]

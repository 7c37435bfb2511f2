-- ===== src/Billing/Notice.antt =====
-- The mails that a billing event causes (`_billing_message`, `_notify_billing_event`). A mail is
-- modelled by what its text is built from, not by the text in its four languages.
use rubrica_back.Base.{
  ℕ, String, Bool, true, false, ◌&&◌, not, Option, none, some, List, [], ◌∷◌, map, keep, str_eq,
  ◌==◌, if◌then◌else◌, is_none, truthy, get_or,
}
use rubrica_back.Base.Dict.{lookup}
use rubrica_back.Store.{
  AccountStatus, not_configured, pending, active, past_due, unpaid, cancelled, paused, Member,
  Database,
}
use rubrica_back.Billing.Product.{Settings, normalize_product_code, plan_file_limit}
use rubrica_back.Billing.Resource.{Resource, product_code}
use rubrica_back.Billing.Effects.{
  EventKind, checkout_completed, payment_succeeded, payment_failed, subscription_created,
  subscription_updated, subscription_other, unrelated, subscription_status,
}
use rubrica_back.Tenant.Members.{is_admin}

-- The keys of `messages`.
pub data MessageKey : Type 0 where
  checkout_received plan_active plan_cancelled payment_confirmed payment_refused plan_paused :
      MessageKey
  plan_changed : MessageKey

abbrev pub same_status : AccountStatus → AccountStatus → Bool
same_status not_configured not_configured = true
same_status pending pending = true
same_status active active = true
same_status past_due past_due = true
same_status unpaid unpaid = true
same_status cancelled cancelled = true
same_status paused paused = true
same_status _ _ = false

-- `mapped_status == previous_status`; there may be no previous status.
abbrev pub is_status : AccountStatus → Option AccountStatus → Bool
is_status s none = false
is_status s (some t) = same_status s t

abbrev pub message_of_status : AccountStatus → Option MessageKey
message_of_status active = some plan_active
message_of_status past_due = some payment_refused
message_of_status unpaid = some payment_refused
message_of_status cancelled = some plan_cancelled
message_of_status paused = some plan_paused
message_of_status _ = none

abbrev pub is_created : EventKind → Bool
is_created subscription_created = true
is_created _ = false

abbrev pub is_updated : EventKind → Bool
is_updated subscription_updated = true
is_updated _ = false

-- `previous_product and current_product and previous_product != current_product`
abbrev pub product_differs : Option String → Option String → Bool
product_differs none _ = false
product_differs (some a) none = false
product_differs (some a) (some b) = not (str_eq a b)

-- The branch of `_billing_message` for subscription events.
unfoldable pub subscription_message :
    EventKind → String → Option AccountStatus → Option String → Option String → Option MessageKey
subscription_message kind provider_status previous_status previous_product current_product =
    let mapped_status : AccountStatus = subscription_status provider_status in
    if is_updated kind && product_differs (truthy previous_product) (truthy current_product)
    then some plan_changed
    else if not (is_created kind) && is_status mapped_status previous_status
    then none
    else message_of_status mapped_status

-- The key that `_billing_message` chooses; no key is no message.
unfoldable pub message_key :
    EventKind → String → Option AccountStatus → Option String → Option String → Option MessageKey
message_key checkout_completed s p a b = some checkout_received
message_key payment_succeeded s p a b = some payment_confirmed
message_key payment_failed s p a b = some payment_refused
message_key unrelated s p a b = none
message_key subscription_created s p a b = subscription_message subscription_created s p a b
message_key subscription_updated s p a b = subscription_message subscription_updated s p a b
message_key subscription_other s p a b = subscription_message subscription_other s p a b

-- What a mail says, to whom, and the event that its idempotency key names. The plans
-- and the limit stand in the text of `plan_changed` only.
pub record Email : Type 0 where
  pub recipient : String
  pub event_id : String
  pub key : MessageKey
  pub locale : String
  pub tenant_name : String
  pub previous_plan : String
  pub current_plan : String
  pub limit : ℕ

-- `select(auth_user_id)` of the administrators of the tenant, suspended ones included.
abbrev pub is_recipient : ℕ → Member → Bool
is_recipient tenant_id m = m.tenant_id == tenant_id && is_admin m.role && is_none m.deleted_at

-- The mails of `_notify_billing_event`, in the order in which they are requested.
unfoldable pub billing_emails :
    Settings
    → String
    → EventKind
    → Option ℕ
    → Resource
    → Option AccountStatus
    → Option String
    → Database
    → List Email
billing_emails settings event_id kind tenant r previous_status previous_product db = elim tenant [
  | none ↦ []
  | some tenant_id ↦ elim (lookup tenant_id db.tenants) [
    | none ↦ []
    | some t ↦
        let current : String = product_code settings r in
        let previous : String = normalize_product_code previous_product in
        elim (message_key kind (get_or r.status "") previous_status previous_product
          (some current)) [
            | none ↦ []
            | some key ↦
                map
                  (λ (m : Member). record {
                    recipient = m.auth_user_id;
                    event_id = event_id;
                    key = key;
                    locale = t.default_locale;
                    tenant_name = t.name;
                    previous_plan = previous;
                    current_plan = normalize_product_code (some current);
                    limit = get_or (plan_file_limit (normalize_product_code (some current))) 0;
                  })
                  (keep (is_recipient tenant_id) db.members)
          ]
  ]
]

-- The loop of `_notify_billing_event`: the mails that are delivered before the first failure.
unfoldable pub send_emails : (Email → Bool) → List Email → List Email
send_emails accepts [] = []
send_emails accepts (e ∷ es) =
    let rest = send_emails accepts es in if accepts e then e ∷ rest else []

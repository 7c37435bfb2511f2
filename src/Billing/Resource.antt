-- ===== src/Billing/Resource.antt =====
-- The Stripe objects that billing reads, field by field: a key that is absent and a key that holds
-- `None` both read as `none`. Amounts are in the currency's minor unit.
use rubrica_back.Base.{ℕ, String, Bool, Option, none, some, List, [], ◌∷◌, or_else, truthy, nonzero}
use rubrica_back.Store.{Instant, from_timestamp}
use rubrica_back.Billing.Product.{Settings, product_code_of}

-- An item of a subscription: the id of its price (or plan), and its period.
pub record Item : Type 0 where
  pub price_id : Option String
  pub current_period_start : Option ℕ
  pub current_period_end : Option ℕ

-- The period of an invoice line.
pub record Line : Type 0 where
  pub start : Option ℕ
  pub end : Option ℕ

pub record Resource : Type 0 where
  pub id : Option String
  pub customer : Option String
  pub subscription : Option String
  pub parent_subscription : Option String
  pub status : Option String
  pub metadata_tenant_id : Option String
  pub client_reference_id : Option String
  pub metadata_product_code : Option String
  pub items : List Item
  pub current_period_start : Option ℕ
  pub current_period_end : Option ℕ
  pub cancel_at_period_end : Bool
  pub cancel_at : Option ℕ
  pub billing_reason : Option String
  pub currency : Option String
  pub amount_due : Option ℕ
  pub amount_paid : Option ℕ
  pub lines : List Line
  pub period_start : Option ℕ
  pub period_end : Option ℕ
  pub paid_at : Option ℕ

-- `_timestamp`: 0 and `None` are no instant.
unfoldable pub timestamp : Option ℕ → Option Instant
timestamp value = elim (nonzero value) [ none ↦ none | some n ↦ some (from_timestamp n) ]

-- `_subscription_price_id`: the first item that has one.
unfoldable pub first_price_id : List Item → Option String
first_price_id [] = none
first_price_id (i ∷ rest) = or_else (truthy i.price_id) (first_price_id rest)

-- `_product_code`
unfoldable pub product_code : Settings → Resource → String
product_code settings r = product_code_of settings (first_price_id r.items) r.metadata_product_code

abbrev pub first_item_start : List Item → Option ℕ
first_item_start [] = none
first_item_start (i ∷ _) = i.current_period_start

abbrev pub first_item_end : List Item → Option ℕ
first_item_end [] = none
first_item_end (i ∷ _) = i.current_period_end

-- `_subscription_period`: what the subscription lacks comes from its first item.
unfoldable pub subscription_period : Resource → Option Instant × Option Instant
unfolding timestamp
subscription_period r = (
  timestamp (or_else (nonzero r.current_period_start) (first_item_start r.items)),
  timestamp (or_else (nonzero r.current_period_end) (first_item_end r.items)),
)

-- The loop of `_invoice_service_period`: the first line with both ends.
unfoldable pub line_period : List Line → Option (ℕ × ℕ)
line_period [] = none
line_period (l ∷ rest) = elim (nonzero l.start) [
  | none ↦ line_period rest
  | some a ↦ elim (nonzero l.end) [ none ↦ line_period rest | some b ↦ some (a, b) ]
]

-- `_invoice_service_period`
unfoldable pub invoice_service_period : Resource → Option Instant × Option Instant
unfolding timestamp
invoice_service_period r = elim (line_period r.lines) [
  | some (a, b) ↦ (timestamp (some a), timestamp (some b))
  | none ↦ (timestamp r.period_start, timestamp r.period_end)
]

-- `_tenant_id`: an identifier that does not parse is none.
unfoldable pub tenant_id_of : Settings → Resource → Option ℕ
tenant_id_of settings r =
    elim (or_else (truthy r.metadata_tenant_id) (truthy r.client_reference_id)) [
      | none ↦ none
      | some raw ↦ settings.parse_uuid raw
    ]

-- ===== src/Store.antt =====
-- The tables of the core API that billing and tenants share: billing_entity.py and tenant_entity.py
-- under apps/core_api/src/core_api/modules. A table is a dict under its key: the tenant for
-- `billing_accounts`, the provider's identifier for payments and events. A write of an entity is an
-- insertion at its key. The other unique columns and the foreign keys to the tenants are tests that
-- the code which inserts or commits makes. Identifiers (`UUID`) are numbers,
-- instants are microseconds of UTC since the epoch. Columns that no modelled operation reads or
-- writes are left out.
use rubrica_back.Base.{
  ℕ, ◌*◌, String, Bool, false, ◌&&◌, ◌||◌, not, Option, none, some, List, ◌==◌, str_eq, any,
  is_some, if◌then◌else◌,
}
use rubrica_back.Base.Actions.{Action, ok, err, integrity_error}
use rubrica_back.Base.Dict.{Dict, TextDict, lookup, insert, values}

abbrev pub Instant : Type 0
Instant = ℕ

-- `datetime.fromtimestamp(n, tz=UTC)`
abbrev pub from_timestamp : ℕ → Instant
from_timestamp n = n * 1000000

-- `timedelta(days=n)`
abbrev pub days : ℕ → ℕ
days n = n * 86400000000

-- The values of `BillingAccountEntity.status`.
pub data AccountStatus : Type 0 where
  not_configured pending active past_due unpaid cancelled paused : AccountStatus

pub record Account : Type 0 where
  pub tenant_id : ℕ
  pub status : AccountStatus
  pub provider : Option String
  pub provider_customer_id : Option String
  pub provider_subscription_id : Option String
  pub current_product_code : Option String
  pub current_period_ends_at : Option Instant
  pub cancel_at_period_end : Bool
  pub cancels_at : Option Instant
  pub grace_period_ends_at : Option Instant
  pub last_provider_event_created_at : Option Instant
  pub free_signatures_limit : ℕ
  pub signatures_used : ℕ
  pub files_uploaded_in_period : ℕ
  pub usage_period_starts_at : Option Instant
  pub complimentary_lifetime : Bool
  pub deleted_at : Option Instant

-- `BillingAccountEntity(tenant_id=…, status="not_configured")` with the defaults of its columns
abbrev pub new_account : ℕ → Account
new_account tenant_id = record {
  tenant_id = tenant_id;
  status = not_configured;
  provider = none;
  provider_customer_id = none;
  provider_subscription_id = none;
  current_product_code = none;
  current_period_ends_at = none;
  cancel_at_period_end = false;
  cancels_at = none;
  grace_period_ends_at = none;
  last_provider_event_created_at = none;
  free_signatures_limit = 5;
  signatures_used = 0;
  files_uploaded_in_period = 0;
  usage_period_starts_at = none;
  complimentary_lifetime = false;
  deleted_at = none;
}

-- The values of `BillingEventEntity.status`.
pub data EventStatus : Type 0 where
  received processed ignored_stale failed : EventStatus

-- `BillingEventEntity`; the provider is always "stripe".
pub record BillingEvent : Type 0 where
  pub tenant_id : Option ℕ
  pub provider_event_id : String
  pub event_type : String
  pub resource_id : String
  pub status : EventStatus
  pub processed_at : Option Instant

pub data PaymentStatus : Type 0 where
  awaited paid refused : PaymentStatus

-- `BillingPaymentEntity`; the provider is always "stripe".
pub record Payment : Type 0 where
  pub tenant_id : ℕ
  pub provider_payment_id : String
  pub provider_subscription_id : Option String
  pub provider_event_id : String
  pub status : PaymentStatus
  pub currency : String
  pub amount_due_minor : ℕ
  pub amount_paid_minor : ℕ
  pub period_starts_at : Option Instant
  pub period_ends_at : Option Instant
  pub paid_at : Option Instant

pub data TenantKind : Type 0 where
  personal business : TenantKind

pub record Tenant : Type 0 where
  pub id : ℕ
  pub name : String
  pub slug : String
  pub default_locale : String
  pub country_code : Option String
  pub timezone : String
  pub currency : String
  pub kind : TenantKind
  pub legal_name : Option String
  pub registration_country : Option String
  pub registration_type : Option String
  pub registration_value_encrypted : Option String
  pub registration_lookup_hmac : Option String
  pub registration_masked : Option String
  pub registration_verification_status : Option String
  pub registration_source : Option String
  pub registration_provider_reference : Option String
  pub deleted_at : Option Instant

pub data Role : Type 0 where
  admin member auditor : Role

pub data MemberStatus : Type 0 where
  enrolled suspended : MemberStatus

pub record Member : Type 0 where
  pub id : ℕ
  pub tenant_id : ℕ
  pub auth_user_id : String
  pub auth_user_uuid : Option ℕ
  pub role : Role
  pub status : MemberStatus
  pub joined_at : Option Instant
  pub created_at : Instant
  pub deleted_at : Option Instant

-- The audit events of tenants (`TenantService._audit`), with the members that the metadata names.
pub record TenantAudit : Type 0 where
  pub tenant_id : ℕ
  pub actor_id : String
  pub action : String
  pub member_ids : List ℕ

pub record Database : Type 0 where
  pub accounts : Dict Account
  pub payments : TextDict Payment
  pub events : TextDict BillingEvent
  pub tenants : Dict Tenant
  pub members : List Member
  pub audit : List TenantAudit

-- The rows of an entity are written back under its key.
abbrev pub save_account : Account → Database → Database
save_account a db = record db { accounts = insert a.tenant_id a db.accounts }

-- Two nullable columns hold the same value.
abbrev pub is_same : Option String → Option String → Bool
is_same none b = false
is_same (some a) none = false
is_same (some a) (some b) = str_eq a b

-- Two accounts violate the unique `provider_customer_id` or `provider_subscription_id`.
abbrev pub clashes : Account → Account → Bool
clashes a b =
    not (a.tenant_id == b.tenant_id)
    && (is_same a.provider_customer_id b.provider_customer_id
        || is_same a.provider_subscription_id b.provider_subscription_id)

-- The rows of accounts reach the database at the commit, which raises when two of them clash.
unfoldable pub flush_accounts : Action Database (Unit {0})
flush_accounts db =
    let rows = values db.accounts in
    if any (λ a. any (clashes a) rows) rows then (err integrity_error, db) else (ok tt, db)

-- The foreign key of a row to its tenant holds.
abbrev pub is_known : ℕ → Database → Bool
is_known t db = is_some (lookup t db.tenants)

abbrev pub save_tenant : Tenant → Database → Database
save_tenant t db = record db { tenants = insert t.id t db.tenants }

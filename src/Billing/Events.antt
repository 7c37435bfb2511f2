-- ===== src/Billing/Events.antt =====
-- The events of the billing provider applied to the database (`_apply_event`).
use rubrica_back.Base.{ℕ, String, Bool, true, false, Option, none, some, List, str_eq, find}
use rubrica_back.Base.Actions.{ok, Action, pure, modify, ◌>>=◌, ◌>>◌}
use rubrica_back.Store.{Instant, Account, Database, save_account}
use rubrica_back.Billing.Product.{Settings, normalize_product_code, is_business_product}
use rubrica_back.Billing.Resource.{Resource}
use rubrica_back.Billing.Account.{account_entity}
use rubrica_back.Billing.Effects.{
  EventKind, checkout_completed, payment_succeeded, payment_failed, unrelated, bind_customer,
  is_stale, record_payment, after_checkout, after_payment, after_failure, after_subscription,
}
use rubrica_back.Tenant.Team.{reconcile_single_member_plan}
use rubrica_back.Tenant.Identity.{Registration, apply_billing_business_identity}

-- `ProviderBusinessIdentity` and its tax ids.
pub record TaxId : Type 0 where
  pub id : String
  pub type : String
  pub value : String

pub record BusinessIdentity : Type 0 where
  pub name : Option String
  pub tax_ids : List TaxId

module _ (settings : Settings) (protect : String → Option Registration)
    (strip : String → String) where
  -- `_apply_business_identity`
  unfoldable pub apply_business_identity :
      ℕ → Option String → Option BusinessIdentity → Action Database (Unit {0})
  apply_business_identity tenant_id code identity db = elim identity [
    | none ↦ (ok tt, db)
    | some i ↦
        let cnpj = find (λ t. str_eq t.type "br_cnpj") i.tax_ids in
        elim (is_business_product (normalize_product_code code)) [
          | false ↦ (ok tt, db)
          | true ↦
              apply_billing_business_identity protect strip tenant_id i.name
                (elim cnpj [ none ↦ none | some t ↦ some t.value ])
                (elim cnpj [ none ↦ none | some t ↦ some t.id ]) db
        ]
  ]

  -- The part of `_apply_event` for subscription events; `false` is a stale event.
  unfoldable pub apply_subscription :
      Instant
      → Resource
      → ℕ
      → Option Instant
      → Option BusinessIdentity
      → Account
      → Action Database Bool
  apply_subscription now r tenant_id created identity account = elim (is_stale created account) [
    | true ↦ (do modify (save_account account); pure false)
    | false ↦ (do
      let updated = after_subscription settings now r created account
      modify (save_account updated)
      apply_business_identity tenant_id updated.current_product_code identity
      modify (reconcile_single_member_plan now tenant_id)
      pure true)
  ]

  -- `_apply_event` once the account is at hand.
  unfoldable pub apply_kind :
      Instant
      → EventKind
      → Resource
      → ℕ
      → Option Instant
      → String
      → Option BusinessIdentity
      → Account
      → Action Database Bool
  apply_kind now checkout_completed r tenant_id created event_id identity a = do
    let updated = after_checkout settings r a
    modify (save_account updated)
    apply_business_identity tenant_id updated.current_product_code identity
    pure true
  apply_kind now payment_succeeded r tenant_id created event_id identity a = do
    record_payment settings tenant_id true r event_id
    modify (save_account (after_payment settings r a))
    pure true
  apply_kind now payment_failed r tenant_id created event_id identity a = do
    record_payment settings tenant_id false r event_id
    modify (save_account (after_failure settings now a))
    pure true
  apply_kind now unrelated r tenant_id created event_id identity a = do
    modify (save_account a)
    pure true
  apply_kind now _ r tenant_id created event_id identity a =
      apply_subscription now r tenant_id created identity a

  -- `_apply_event`; an event of no tenant changes nothing.
  unfoldable pub apply_event :
      Instant
      → EventKind
      → Resource
      → Option ℕ
      → Option Instant
      → String
      → Option BusinessIdentity
      → Action Database Bool
  apply_event now kind r tenant created event_id identity db = elim tenant [
    | none ↦ (ok true, db)
    | some tenant_id ↦
        (do
          account ← account_entity tenant_id
          apply_kind now kind r tenant_id created event_id identity (bind_customer r account))
          db
  ]

-- ===== src/Billing/Purchase.antt =====
-- What a checkout may begin, and what it writes of the account.
use rubrica_back.Base.{
  ℕ, String, Bool, true, false, ◌&&◌, ◌≡◌, none, some, arith, inl, inr, ◌⊎◌, Option-cases, str_eq,
  refl, sym, subst, truthy, is_some,
}
use rubrica_back.Base.Actions.{Result, ok, err, workflow_error}
use rubrica_back.Base.Dict.{lookup, lookup-insert}
use rubrica_back.Store.{
  Instant, Account, Tenant, Database, Role, save_account, flush_accounts, is_known,
}
use rubrica_back.Billing.Product.{Settings, normalize_product_code}
use rubrica_back.Billing.Access.{is_active, subscription_requires_portal}
use rubrica_back.Billing.Account.{account_entity}
use rubrica_back.Billing.Webhook.{Provider}
use rubrica_back.Billing.Checkout.{customer_of, create_checkout}
use rubrica_back.Billing.Quota.{account_of, IsKeyedAt}
use rubrica_back.Tenant.Identity.{find_tenant}
use rubrica_back.Tenant.Members.{is_admin, Caller, require_role}

-- A checkout leaves the account as it was, with a customer that is there already, or writes its
-- provider and a customer that the provider has just created.
abbrev pub Buys : String → Account → Account → Type 0
Buys provider a b =
    ((b ≡ a) × (is_some (truthy a.provider_customer_id) ≡ true))
    ⊎ ((truthy a.provider_customer_id ≡ none)
        × ((customer : String) × (b
              ≡ record a { provider = some provider; provider_customer_id = some customer })))

-- The account that a checkout leaves stored.
unfoldable pub IsBought : String → ℕ → Account → Database → Type 0
IsBought provider t a db = (b : Account) × (lookup t db.accounts ≡ some b) × Buys provider a b

-- What a checkout for the product code has done: refused, nothing; granted, the account, as it was
-- stored, revived or created, has no lifetime access, no subscription that the portal changes, and not
-- that plan already, it is stored with nothing but its provider and customer written, and no two
-- accounts share a customer or a subscription.
abbrev pub Opens : String → ℕ → String → Database → Result String × Database → Type 0
Opens provider t code db (ok _, db') =
    let a = account_of t db in
    (a.complimentary_lifetime ≡ false)
    × (subscription_requires_portal a ≡ false)
    × ((is_active a.status
          && str_eq (normalize_product_code (some code))
              (normalize_product_code a.current_product_code))
        ≡ false)
    × IsBought provider t a db'
    × ((flush_accounts db').0 ≡ ok tt)
Opens provider t code db (err _, db') = db' ≡ db

require_role_state :
    (now : Instant) (t : ℕ) (c : Caller) (roles : Role → Bool) (db : Database)
    → (require_role now t c roles true db).1 ≡ db
unfolding require_role
require_role_state now t c roles db = grind arith

module _ (settings : Settings) (provider : Provider) where
  -- What `customer_of` leaves of the account.
  abbrev Keeps : ℕ → Account → Result String × Database → Type 0
  Keeps t a (ok _, db') = IsBought settings.billing_provider t a db'
  Keeps t a (err _, db') = Unit

  customer_of-Keeps :
      (t : ℕ) (subject : String) (tenant : Tenant) (a : Account) (db : Database)
      → lookup t db.accounts ≡ some a
      → a.tenant_id ≡ t
      → Keeps t a (customer_of settings provider t subject tenant a db)
  unfolding customer_of IsBought
  customer_of-Keeps t subject tenant a db h k =
      let call = customer_of settings provider t subject tenant a db in
      elim (Option-cases (truthy a.provider_customer_id)) [
        | inr (c, e) ↦
            let done : call ≡ (ok c, db) = ground (arith, e) in
            subst (Keeps t a) (sym done) (a, h, inl (refl, ground (arith, e)))
        | inl e ↦ elim (Option-cases (provider.create_customer subject tenant.name t)) [
          | inl down ↦
              let done : call ≡ (err (workflow_error "Stripe is unavailable" 502), db) =
                ground (arith, e, down) in
              subst (Keeps t a) (sym done) tt
          | inr (c, up) ↦
              let b : Account = record a {
                provider = some settings.billing_provider;
                provider_customer_id = some c;
              } in
              let done : call ≡ (ok c, save_account b db) = ground (arith, e, up) in
              subst (Keeps t a) (sym done) (b, grind (arith, k, lookup-insert), inr (e, (c, refl)))
        ]
      ]

  account_entity-stored :
      (t : ℕ) (db : Database)
      → IsKeyedAt t db
      → is_known t db ≡ true
      → ((account_entity t db).0 ≡ ok (account_of t db))
        × (lookup t (account_entity t db).1.accounts ≡ some (account_of t db))
        × ((account_of t db).tenant_id ≡ t)
  unfolding account_entity
  account_entity-stored t db keyed known = elim (Option-cases (lookup t db.accounts)) [
    | inl missing ↦ grind (arith, missing, known, lookup-insert)
    | inr (a, found) ↦ grind (arith, lookup-insert, keyed a found)
  ]

  find_tenant_known :
      (t : ℕ) (tenant : Tenant) (db : Database)
      → find_tenant t db ≡ some tenant
      → is_known t db ≡ true
  unfolding find_tenant
  find_tenant_known t tenant db h = ground (arith, h)

  flush_accounts_state : (db : Database) → (flush_accounts db).1 ≡ db
  unfolding flush_accounts
  flush_accounts_state db = ground arith

  module _ (now : Instant) (t : ℕ) (caller : Caller) (subject code interval : String)
      (db : Database) where
    -- A checkout is opened only for an account, stored under its tenant, revived or created, that has
    -- no lifetime access, no subscription that the portal changes, and not that plan already. It stores
    -- that account with nothing but its provider and customer written, and these only where it had no
    -- customer; no two accounts then share a customer or a subscription. A refused call changes
    -- nothing.
    pub create_checkout-Opens :
        IsKeyedAt t db
        → Opens settings.billing_provider t code db
            (create_checkout settings provider now t caller subject code interval db)
    unfolding create_checkout
    create_checkout-Opens keyed = elim (Option-cases (find_tenant t db)) [
      | inl missing ↦ grind (arith, missing, require_role_state now t caller is_admin db)
      | inr (tenant, found) ↦
          let (read, kept, own) =
            account_entity-stored t db keyed (find_tenant_known t tenant db found) in
          let keeps =
            customer_of-Keeps t subject tenant (account_of t db) (account_entity t db).1 kept own in
          grind (
            arith,
            found,
            require_role_state now t caller is_admin db,
            read,
            keeps,
            flush_accounts_state,
          )
    ]

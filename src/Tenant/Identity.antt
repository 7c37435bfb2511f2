-- ===== src/Tenant/Identity.antt =====
-- The business identity of a tenant: `apply_billing_business_identity` and `convert_to_business`.
use rubrica_back.Base.{
  ℕ, String, Bool, true, false, ◌&&◌, not, Option, none, some, [], str_eq, ◌==◌, if◌then◌else◌,
  is_none, truthy, get_or, any,
}
use rubrica_back.Base.Actions.{
  workflow_error, Action, raise_if, pure, modify, or_raise, transaction, ◌>>=◌, ◌>>◌,
}
use rubrica_back.Base.Dict.{lookup, values}
use rubrica_back.Store.{Instant, Tenant, TenantKind, personal, business, Database, save_tenant}
use rubrica_back.Billing.Access.{business_features_enabled}
use rubrica_back.Tenant.Members.{is_admin, Caller, require_role}
use rubrica_back.Tenant.Team.{record_audit}

abbrev pub is_business : TenantKind → Bool
is_business business = true
is_business personal = false

-- What `protect_cnpj` returns: the encrypted number, its lookup key, and its masked form.
pub record Registration : Type 0 where
  pub encrypted : String
  pub lookup_hmac : String
  pub masked : String

abbrev pub same_text : Option String → String → Bool
same_text none b = false
same_text (some a) b = str_eq a b

-- Another tenant that is not deleted has the lookup key.
unfoldable pub has_conflict : ℕ → String → Database → Bool
has_conflict tenant_id key db =
    any
      (λ t.
        same_text t.registration_lookup_hmac key && is_none t.deleted_at && not (t.id == tenant_id))
      (values db.tenants)

-- The row that both functions select: a tenant that is not deleted.
unfoldable pub find_tenant : ℕ → Database → Option Tenant
find_tenant tenant_id db = elim (lookup tenant_id db.tenants) [
  | none ↦ none
  | some t ↦ if is_none t.deleted_at then some t else none
]

-- The eight writes of a verified business identity.
abbrev pub register : String → Registration → String → Tenant → Tenant
register name r verification t = record t {
  kind = business;
  name = name;
  legal_name = some name;
  registration_country = some "BR";
  registration_type = some "BR_CNPJ";
  registration_value_encrypted = some r.encrypted;
  registration_lookup_hmac = some r.lookup_hmac;
  registration_masked = some r.masked;
  registration_verification_status = some verification;
}

-- `protect` is `protect_cnpj`, which fails on an invalid number, and `strip` is `str.strip`.
module _ (protect : String → Option Registration) (strip : String → String) where
  -- The new row of the tenant in `apply_billing_business_identity`.
  unfoldable pub billing_identity :
      ℕ → Option String → Option String → Option String → Database → Tenant → Tenant
  unfolding has_conflict
  billing_identity tenant_id legal_name cnpj reference db t =
      let sourced = record t {
        registration_source = some "stripe";
        registration_provider_reference = reference;
      } in
      let flag = λ (s : String). record sourced { registration_verification_status = some s } in
      elim (truthy cnpj) [
        | none ↦ flag "stripe_cnpj_required"
        | some number ↦ elim (protect number) [
          | none ↦ flag "stripe_cnpj_invalid"
          | some r ↦
              if is_business t.kind && not (same_text t.registration_lookup_hmac r.lookup_hmac)
              then flag "stripe_cnpj_mismatch"
              else if has_conflict tenant_id r.lookup_hmac db
              then flag "stripe_cnpj_conflict"
              else elim (truthy (some (strip (get_or legal_name "")))) [
                | none ↦ flag "stripe_name_required"
                | some name ↦ register name r "stripe_format_valid" sourced
              ]
        ]
      ]

  -- `apply_billing_business_identity`; the conversion of a personal tenant is audited.
  unfoldable pub apply_billing_business_identity :
      ℕ → Option String → Option String → Option String → Action Database (Unit {0})
  unfolding billing_identity find_tenant
  apply_billing_business_identity tenant_id legal_name cnpj reference db =
      (do
        tenant ← or_raise (find_tenant tenant_id db) (workflow_error "Tenant not found" 404)
        let updated = billing_identity tenant_id legal_name cnpj reference db tenant
        modify (save_tenant updated)
        modify (λ t.
            if not (is_business tenant.kind) && is_business updated.kind
            then record_audit tenant_id "stripe" "tenant.converted_to_business_from_billing" [] t
            else t))
        db

  -- `convert_to_business`
  unfoldable pub convert_to_business :
      Instant → ℕ → String → String → Caller → Action Database Tenant
  unfolding find_tenant has_conflict
  convert_to_business now tenant_id legal_name cnpj caller = transaction λ db.
      (do
        require_role now tenant_id caller is_admin false
        tenant ← or_raise (find_tenant tenant_id db) (workflow_error "Tenant not found" 404)
        raise_if (is_business tenant.kind)
            (workflow_error "Tenant is already a business tenant" 409)
        raise_if (not (business_features_enabled now tenant_id db))
            (workflow_error "A Professional or Team plan is required for a business tenant" 403)
        r ← or_raise (protect cnpj) (workflow_error "Invalid Brazilian CNPJ" 422)
        raise_if (has_conflict tenant_id r.lookup_hmac db)
            (workflow_error "This CNPJ is already associated with another tenant" 409)
        let updated = register (strip legal_name) r "format_valid" tenant
        modify (save_tenant updated)
        modify (record_audit tenant_id caller.subject "tenant.converted_to_business" [])
        pure updated)
        db

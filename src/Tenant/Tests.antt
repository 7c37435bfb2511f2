-- ===== src/Tenant/Tests.antt =====
-- Runs of the tenant service on small inputs.
use rubrica_back.Base.{◌≡◌, ◌≢◌, ◌↔◌, refl, String, true, none, some, List, [], ◌∷◌}
use rubrica_back.Base.Dict.{lookup}
use rubrica_back.Billing.Product.{plan_member_limit}
use rubrica_back.Store.{
  active, Database, new_account, Member, enrolled, admin, member, auditor, Tenant, personal,
}
use rubrica_back.Billing.Access.{business_features_enabled, find_account, paid_access_enabled}
use rubrica_back.Tenant.Members.{Caller, active_count, member_limit}
use rubrica_back.Tenant.Team.{reconcile_single_member_plan}
use rubrica_back.Tenant.Enrollment.{MemberCreate, add_member, invite_member}
use rubrica_back.Tenant.Seats.{
  Adds, add_member-Adds, invite_member-Adds, business_features-member_limit,
}
use rubrica_back.Base.{◌∙◌, sym, arith, Option, ℕ}
use rubrica_back.Tenant.Identity.{
  Registration, apply_billing_business_identity, convert_to_business,
}
use rubrica_back.Tenant.Registry.{
  IsRegistry, holds, apply_billing_business_identity-IsRegistry, convert_to_business-IsRegistry,
}
use rubrica_back.Tenant.Downgrade.{reconcile_single_member_plan_lem}

abbrev ana : Member
ana = record {
  id = 10;
  tenant_id = 1;
  auth_user_id = "ana@x.y";
  auth_user_uuid = none;
  role = admin;
  status = enrolled;
  joined_at = some 1;
  created_at = 1;
  deleted_at = none;
}

abbrev bea : Member
bea = record ana { id = 11; auth_user_id = "bea@x.y"; role = member; joined_at = some 0 }

abbrev caio : Member
caio = record ana { id = 12; auth_user_id = "caio@x.y"; role = auditor; joined_at = none }

abbrev company : Tenant
company = record {
  id = 1;
  name = "Acme";
  slug = "acme";
  default_locale = "en";
  country_code = none;
  timezone = "UTC";
  currency = "USD";
  kind = personal;
  legal_name = none;
  registration_country = none;
  registration_type = none;
  registration_value_encrypted = none;
  registration_lookup_hmac = none;
  registration_masked = none;
  registration_verification_status = none;
  registration_source = none;
  registration_provider_reference = none;
  deleted_at = none;
}

abbrev on_plan : String → List Member → Database
on_plan code members = record {
  accounts = (1, record (new_account 1) { status = active; current_product_code = some code }) ∷ [];
  payments = [];
  events = [];
  tenants = (1, company) ∷ [];
  members = members;
  audit = [];
}

abbrev professional : Database
professional = on_plan "rubrica_intermediate" (ana ∷ bea ∷ [])

abbrev essential : Database
essential = on_plan "rubrica_base" (bea ∷ ana ∷ caio ∷ [])

abbrev caller : Caller
caller = record { subject = "ana@x.y"; user_id = none }

abbrev invitation : MemberCreate
invitation = record { id = 12; auth_user_id = "caio@x.y"; auth_user_uuid = some 7; role = member }

add_member-Adds_example : Adds 5 1 professional (add_member 5 1 invitation caller professional)
add_member-Adds_example = add_member-Adds 5 1 invitation caller professional

invite_member-Adds_example :
    Adds 5 1 professional (invite_member 5 1 invitation caller professional)
invite_member-Adds_example = invite_member-Adds 5 1 invitation caller professional

business_features-member_limit_example :
    (business_features_enabled 5 1 essential ≡ true) ↔ (member_limit 5 1 essential ≢ some 1)
business_features-member_limit_example = business_features-member_limit 5 1 essential

one_seat : member_limit 5 1 essential ≡ some 1
unfolding member_limit find_account lookup paid_access_enabled plan_member_limit
one_seat = refl

reconcile_single_member_plan_lem_example :
    active_count 1 (reconcile_single_member_plan 5 1 essential) ≡ 1
reconcile_single_member_plan_lem_example =
    reconcile_single_member_plan_lem 5 1 essential (refl, (refl, (refl, tt))) one_seat refl

program : Unit {0}
unfolding lookup
program = tt

-- Tenant 2 has the identifier with the lookup key "k", tenant 1 has none.
abbrev registered : Database
registered = record professional {
  tenants = (1, company) ∷ (2, record company { id = 2; registration_lookup_hmac = some "k" }) ∷ [];
}

abbrev protect_as : String → String → Option Registration
protect_as key number = some (record { encrypted = number; lookup_hmac = key; masked = number })

holders : (key : String) (i : ℕ) → holds key (lookup i registered.tenants) ≡ true → i ≡ 2
unfolding program
holders key i h = grind arith

registered-IsRegistry : IsRegistry registered
unfolding program
registered-IsRegistry = record {
  keyed = λ i t h. grind arith;
  unique = λ key i j h e. holders key i h ∙ sym (holders key j e);
}

apply_billing_business_identity-IsRegistry_example :
    IsRegistry
      (apply_billing_business_identity
        (protect_as "k")
        (λ s. s)
        1
        (some "Acme")
        (some "1")
        (some "txi_1")
        registered).1
apply_billing_business_identity-IsRegistry_example =
    apply_billing_business_identity-IsRegistry (protect_as "k") (λ s. s) 1 (some "Acme") (some "1")
      (some "txi_1") registered registered-IsRegistry

convert_to_business-IsRegistry_example :
    IsRegistry (convert_to_business (protect_as "m") (λ s. s) 5 1 "Acme" "1" caller registered).1
convert_to_business-IsRegistry_example =
    convert_to_business-IsRegistry (protect_as "m") (λ s. s) 5 1 "Acme" "1" caller registered
      registered-IsRegistry

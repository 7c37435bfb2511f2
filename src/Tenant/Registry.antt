-- ===== src/Tenant/Registry.antt =====
-- A business identifier belongs to one tenant: `apply_billing_business_identity` and
-- `convert_to_business` keep it so.
use rubrica_back.Base.{
  ℕ, ◌≡◌, refl, String, Bool, true, false, ◌&&◌, not, Option, none, some, [], ◌∷◌, arith, inl, inr,
  Option-cases, Bool-cases, ◌==◌, any, str_eq_iff, is_none, sym, ◌∙◌, ◌⊎◌,
}
use rubrica_back.Base.Dict.{Dict, lookup, insert, values, lookup-insert}
use rubrica_back.Store.{Instant, Tenant, Database, Role}
use rubrica_back.Tenant.Members.{is_admin, Caller, require_role}
use rubrica_back.Tenant.Identity.{
  Registration, same_text, has_conflict, find_tenant, billing_identity,
  apply_billing_business_identity, convert_to_business, register,
}

-- The row is that of a tenant that is not deleted and has the identifier's lookup key.
abbrev pub holds : String → Option Tenant → Bool
holds key none = false
holds key (some t) = same_text t.registration_lookup_hmac key && is_none t.deleted_at

-- At most one tenant has an identifier, and tenants are stored under their identifiers.
pub record IsRegistry (db : Database) : Type 0 where
  pub keyed : (i : ℕ) (t : Tenant) → lookup i db.tenants ≡ some t → t.id ≡ i
  pub unique :
      (key : String) (i j : ℕ)
      → holds key (lookup i db.tenants) ≡ true
      → holds key (lookup j db.tenants) ≡ true
      → i ≡ j

any-values :
    (q : Tenant → Bool) (j : ℕ) (b : Tenant) (d : Dict Tenant)
    → lookup j d ≡ some b
    → q b ≡ true
    → any q (values d) ≡ true
unfolding lookup values
any-values q j b [] h e = absurd (ground arith)
any-values q j b ((i, t) ∷ d) h e = ground (arith, any-values q j b d)

-- Without a conflict, nobody else has the identifier.
no_conflict :
    (t j : ℕ) (key : String) (b : Tenant) (db : Database)
    → has_conflict t key db ≡ false
    → lookup j db.tenants ≡ some b
    → holds key (some b) ≡ true
    → b.id ≡ t
unfolding has_conflict
no_conflict t j key b db free found held = elim (Bool-cases (b.id == t)) [
  | inl same ↦ ground arith
  | inr other ↦ absurd (
      ground (
        arith,
        any-values
            (λ x.
              same_text x.registration_lookup_hmac key && is_none x.deleted_at && not (x.id == t))
            j b db.tenants found,
      ))
]

-- The new row of a tenant has the identifier that it had, or one that nobody else has.
abbrev Admits : ℕ → Database → Tenant → Tenant → Type 0
Admits i db t r =
    (r.id ≡ t.id)
    × (r.deleted_at ≡ t.deleted_at)
    × ((key : String)
        → holds key (some r) ≡ true
        → holds key (some t) ≡ false
        → has_conflict i key db ≡ false)

other_holder :
    (i j : ℕ) (t r : Tenant) (key : String) (db : Database)
    → IsRegistry db
    → lookup i db.tenants ≡ some t
    → Admits i db t r
    → holds key (some r) ≡ true
    → holds key (lookup j db.tenants) ≡ true
    → j ≡ i
other_holder i j t r key db registry found (same, live, admits) mine yours =
    elim (Bool-cases (holds key (some t))) [
      | inl before ↦ registry.unique key j i yours (rw found before)
      | inr fresh ↦ elim (Option-cases (lookup j db.tenants)) [
        | inl missing ↦ absurd (ground arith)
        | inr (b, stored) ↦
            sym (registry.keyed j b stored)
            ∙ no_conflict i j key b db (admits key mine fresh) stored (ground arith)
      ]
    ]

has_identifier :
    (key : String) (i j : ℕ) (r : Tenant) (db db' : Database)
    → db'.tenants ≡ insert i r db.tenants
    → holds key (lookup j db'.tenants) ≡ true
    → ((j ≡ i) × (holds key (some r) ≡ true)) ⊎ (holds key (lookup j db.tenants) ≡ true)
has_identifier key i j r db db' saved h = elim (Bool-cases (j == i)) [
  | inl here ↦ inl (grind arith, grind (arith, lookup-insert i j r db.tenants, saved))
  | inr there ↦ inr (grind (arith, lookup-insert i j r db.tenants, saved))
]

save-IsRegistry :
    (i : ℕ) (t r : Tenant) (db db' : Database)
    → IsRegistry db
    → lookup i db.tenants ≡ some t
    → Admits i db t r
    → db'.tenants ≡ insert i r db.tenants
    → IsRegistry db'
save-IsRegistry i t r db db' registry found admits saved = record {
  keyed = λ j x h. elim (Bool-cases (j == i)) [
    | inl here ↦ grind (arith, lookup-insert, saved, registry.keyed i t found, admits.0)
    | inr there ↦ grind (arith, lookup-insert, saved, registry.keyed j x)
  ];
  unique = λ key j k h e. elim (has_identifier key i j r db db' saved h) [
    | inl (here, mine) ↦ elim (has_identifier key i k r db db' saved e) [
      | inl (there, _) ↦ here ∙ sym there
      | inr yours ↦ here ∙ sym (other_holder i k t r key db registry found admits mine yours)
    ]
    | inr yours ↦ elim (has_identifier key i k r db db' saved e) [
      | inl (there, mine) ↦ other_holder i j t r key db registry found admits mine yours ∙ sym there
      | inr theirs ↦ registry.unique key j k yours theirs
    ]
  ];
}

found_tenant :
    (i : ℕ) (t : Tenant) (db : Database) → find_tenant i db ≡ some t → lookup i db.tenants ≡ some t
unfolding find_tenant
found_tenant i t db h = ground arith

same_tenants : (db db' : Database) → db'.tenants ≡ db.tenants → IsRegistry db → IsRegistry db'
same_tenants db db' same registry = record {
  keyed = λ i t h. registry.keyed i t (rw (sym same) h);
  unique = λ key i j h e. registry.unique key i j (rw (sym same) h) (rw (sym same) e);
}

module _ (protect : String → Option Registration) (strip : String → String) where
  billing_identity-Admits :
      (i : ℕ) (name cnpj reference : Option String) (db : Database) (t : Tenant)
      → Admits i db t (billing_identity protect strip i name cnpj reference db t)
  unfolding billing_identity
  billing_identity-Admits i name cnpj reference db t =
      (ground arith, ground arith, λ key h e. grind (arith, str_eq_iff))

  -- Where no two tenants that are not deleted have the same business identifier, that stays so after
  -- `apply_billing_business_identity`, whatever identity the provider reports for a tenant, and also
  -- where the call is refused.
  pub apply_billing_business_identity-IsRegistry :
      (i : ℕ) (name cnpj reference : Option String) (db : Database)
      → IsRegistry db
      → IsRegistry (apply_billing_business_identity protect strip i name cnpj reference db).1
  unfolding apply_billing_business_identity
  apply_billing_business_identity-IsRegistry i name cnpj reference db registry =
      elim (Option-cases (find_tenant i db)) [
        | inl missing ↦ rw missing registry
        | inr (t, found) ↦
            save-IsRegistry i t (billing_identity protect strip i name cnpj reference db t) db
              (apply_billing_business_identity protect strip i name cnpj reference db).1 registry
              (found_tenant i t db found) (billing_identity-Admits i name cnpj reference db t)
              (grind (arith, found))
      ]

  require_role_state :
      (now : Instant) (t : ℕ) (c : Caller) (roles : Role → Bool) (allow : Bool) (db : Database)
      → (require_role now t c roles allow db).1 ≡ db
  unfolding require_role
  require_role_state now t c roles allow db = grind arith

  register-Admits :
      (i : ℕ) (name : String) (r : Registration) (db : Database) (t : Tenant)
      → has_conflict i r.lookup_hmac db ≡ false
      → Admits i db t (register name r "format_valid" t)
  register-Admits i name r db t free = (refl, refl, λ key h e. grind (arith, str_eq_iff))

  accepted :
      (now : Instant) (i : ℕ) (name cnpj : String) (caller : Caller) (db : Database)
      → IsRegistry db
      → (t : Tenant) (r : Registration) → find_tenant i db ≡ some t
      → protect cnpj ≡ some r
      → has_conflict i r.lookup_hmac db ≡ false
      → let db' = (convert_to_business protect strip now i name cnpj caller db).1 in
        (db'.tenants ≡ db.tenants)
        ⊎ (db'.tenants ≡ insert i (register (strip name) r "format_valid" t) db.tenants)
  unfolding convert_to_business
  accepted now i name cnpj caller db registry t r found valid free = grind (
    arith,
    found,
    valid,
    free,
    require_role_state now i caller is_admin false db,
    registry.keyed i t (found_tenant i t db found),
  )

  converted :
      (now : Instant) (i : ℕ) (name cnpj : String) (caller : Caller) (db : Database)
      → IsRegistry db
      → let db' = (convert_to_business protect strip now i name cnpj caller db).1 in
        (db'.tenants ≡ db.tenants)
        ⊎ ((t : Tenant) × (r : Registration) × (lookup i db.tenants ≡ some t)
            × (has_conflict i r.lookup_hmac db ≡ false)
            × (db'.tenants ≡ insert i (register (strip name) r "format_valid" t) db.tenants))
  unfolding convert_to_business
  converted now i name cnpj caller db registry =
      let role = require_role_state now i caller is_admin false db in
      elim (Option-cases (find_tenant i db)) [
        | inl missing ↦ inl (grind (arith, missing, role))
        | inr (t, found) ↦ elim (Option-cases (protect cnpj)) [
          | inl invalid ↦ inl (grind (arith, found, invalid, role))
          | inr (r, valid) ↦ elim (Bool-cases (has_conflict i r.lookup_hmac db)) [
            | inl taken ↦ inl (grind (arith, found, valid, taken, role))
            | inr free ↦ elim (accepted now i name cnpj caller db registry t r found valid free) [
              | inl kept ↦ inl kept
              | inr written ↦ inr (t, r, found_tenant i t db found, free, written)
            ]
          ]
        ]
      ]

  -- Where no two tenants that are not deleted have the same business identifier, that stays so after
  -- `convert_to_business`, also where the call is refused.
  pub convert_to_business-IsRegistry :
      (now : Instant) (i : ℕ) (name cnpj : String) (caller : Caller) (db : Database)
      → IsRegistry db
      → IsRegistry (convert_to_business protect strip now i name cnpj caller db).1
  unfolding convert_to_business
  convert_to_business-IsRegistry now i name cnpj caller db registry =
      elim (converted now i name cnpj caller db registry) [
        | inl kept ↦ same_tenants db _ kept registry
        | inr (t, r, found, free, written) ↦
            save-IsRegistry i t (register (strip name) r "format_valid" t) db _ registry found
              (register-Admits i (strip name) r db t free) written
      ]

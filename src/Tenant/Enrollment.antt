-- ===== src/Tenant/Enrollment.antt =====
-- The operations of `TenantService` that add a member: `add_member` and `invite_member`.
use rubrica_back.Base.{
  ℕ, String, Bool, true, ◌&&◌, ◌||◌, not, Option, none, some, [], ◌∷◌, ◌++◌, str_eq, ◌==◌, is_none,
  is_some, any,
}
use rubrica_back.Base.Actions.{
  workflow_error, Action, raise_if, pure, modify, or_raise, transaction, ◌>>=◌, ◌>>◌,
}
use rubrica_back.Base.Dict.{lookup}
use rubrica_back.Store.{Instant, Tenant, Member, enrolled, Role, Database}
use rubrica_back.Billing.Access.{business_features_enabled}
use rubrica_back.Tenant.Members.{
  is_admin, belongs, active_count, member_limit, Caller, require_role, lock_team, same_user,
}
use rubrica_back.Tenant.Team.{record_audit, full}

-- The payload of `add_member`, with its identity in lower case, the user that `resolve_auth_user`
-- finds for it, and the identifier of the new row.
pub record MemberCreate : Type 0 where
  pub id : ℕ
  pub auth_user_id : String
  pub auth_user_uuid : Option ℕ
  pub role : Role

abbrev pub enroll : Instant → ℕ → MemberCreate → Member
enroll now tenant_id payload = record {
  id = payload.id;
  tenant_id = tenant_id;
  auth_user_id = payload.auth_user_id;
  auth_user_uuid = payload.auth_user_uuid;
  role = payload.role;
  status = enrolled;
  joined_at = some now;
  created_at = now;
  deleted_at = none;
}

-- The two unique indexes of `tenant_members`, which a flush checks.
unfoldable pub violates_unique : Member → Member → Bool
violates_unique new old =
    (old.tenant_id == new.tenant_id)
    && (str_eq old.auth_user_id new.auth_user_id
        || (is_none old.deleted_at && same_user old.auth_user_uuid new.auth_user_uuid))

-- The tests that `add_member` and `invite_member` share.
unfoldable pub check_seat : Instant → ℕ → Caller → Action Database Tenant
check_seat now tenant_id caller = do
  lock_team tenant_id
  require_role now tenant_id caller is_admin true
  λ db.
      (do
        tenant ← or_raise (lookup tenant_id db.tenants) (workflow_error "Tenant not found" 404)
        raise_if (is_some tenant.deleted_at) (workflow_error "Tenant not found" 404)
        raise_if (not (business_features_enabled now tenant_id db))
            (workflow_error "A Professional or Team plan is required for business members" 403)
        raise_if (full (member_limit now tenant_id db) (active_count tenant_id db))
            (workflow_error "The current plan allows up to that many tenant members" 409)
        pure tenant)
        db

-- `add_member`
unfoldable pub add_member : Instant → ℕ → MemberCreate → Caller → Action Database (Unit {0})
add_member now tenant_id payload caller = transaction (do
  check_seat now tenant_id caller
  λ db.
      (do
        let new = enroll now tenant_id payload
        raise_if (any (violates_unique new) db.members)
            (workflow_error "User is already a tenant member" 409)
        modify (λ t. record t { members = t.members ++ new ∷ [] })
        modify (record_audit tenant_id caller.subject "tenant.member_added" (new.id ∷ [])))
        db)

-- `invite_member`; the violation of a unique index is an unhandled error there.
unfoldable pub invite_member : Instant → ℕ → MemberCreate → Caller → Action Database (Unit {0})
invite_member now tenant_id payload caller = transaction (do
  check_seat now tenant_id caller
  λ db.
      (do
        let new = enroll now tenant_id payload
        raise_if
            (any (λ m. belongs tenant_id m && str_eq m.auth_user_id payload.auth_user_id)
              db.members)
            (workflow_error "User is already a tenant member" 409)
        raise_if (any (violates_unique new) db.members) (workflow_error "IntegrityError" 500)
        modify (λ t. record t { members = t.members ++ new ∷ [] })
        modify (record_audit tenant_id caller.subject "tenant.member_invited" (new.id ∷ [])))
        db)

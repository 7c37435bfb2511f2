-- ===== src/Tenant/Members.antt =====
-- The queries of `TenantService` on members, the seats of a plan, and the access test.
use rubrica_back.Base.{
  ℕ, String, Bool, true, false, ◌&&◌, ◌||◌, not, Option, none, some, str_eq, ltb, ◌==◌,
  if◌then◌else◌, is_none, find, count,
}
use rubrica_back.Base.Actions.{workflow_error, Action, raise_if, pure, or_raise, ◌>>=◌, ◌>>◌}
use rubrica_back.Store.{Instant, Member, MemberStatus, enrolled, suspended, Role, admin, Database}
use rubrica_back.Billing.Product.{plan_member_limit}
use rubrica_back.Billing.Access.{paid_access_enabled, find_account}

abbrev pub is_enrolled : MemberStatus → Bool
is_enrolled enrolled = true
is_enrolled suspended = false

abbrev pub is_admin : Role → Bool
is_admin admin = true
is_admin _ = false

-- The members of a tenant that are not deleted, in the order of the table.
abbrev pub belongs : ℕ → Member → Bool
belongs tenant_id m = m.tenant_id == tenant_id && is_none m.deleted_at

abbrev pub holds_seat : ℕ → Member → Bool
holds_seat tenant_id m = belongs tenant_id m && is_enrolled m.status

-- `select(func.count(…))` of `add_member`, `invite_member` and `team_over_limit`.
unfoldable pub active_count : ℕ → Database → ℕ
active_count tenant_id db = count (holds_seat tenant_id) db.members

-- `member_limit`; `none` is no limit. The code is looked up as it is stored, and no code is no plan.
unfoldable pub member_limit : Instant → ℕ → Database → Option ℕ
member_limit now tenant_id db = elim (find_account tenant_id db) [
  | none ↦ some 1
  | some a ↦
      if a.complimentary_lifetime
      then none
      else if not (paid_access_enabled now a)
      then some 1
      else elim a.current_product_code [ none ↦ some 1 | some code ↦ some (plan_member_limit code) ]
]

-- `team_over_limit`
unfoldable pub team_over_limit : Instant → ℕ → Database → Bool
unfolding active_count
team_over_limit now tenant_id db = elim (member_limit now tenant_id db) [
  | none ↦ false
  | some limit ↦ ltb limit (active_count tenant_id db)
]

-- The caller: the subject in lower case, and the identifier of the authentication context.
pub record Caller : Type 0 where
  pub subject : String
  pub user_id : Option ℕ

abbrev pub same_user : Option ℕ → Option ℕ → Bool
same_user (some a) (some b) = a == b
same_user _ _ = false

-- `membership_identity_filter`: by user identifier, or by subject for a row that has none.
unfoldable pub is_member_of : Caller → Member → Bool
is_member_of c m =
    same_user c.user_id m.auth_user_uuid
    || (is_none m.auth_user_uuid && str_eq m.auth_user_id c.subject)

-- `require_role`
unfoldable pub require_role : Instant → ℕ → Caller → (Role → Bool) → Bool → Action Database Member
unfolding is_member_of
require_role now tenant_id caller roles allow_over_limit db =
    (do
      found ←
          or_raise (find (λ m. holds_seat tenant_id m && is_member_of caller m) db.members)
            (workflow_error "Tenant access denied" 403)
      raise_if (not (roles found.role)) (workflow_error "Tenant access denied" 403)
      raise_if (not allow_over_limit && team_over_limit now tenant_id db)
          (workflow_error "Select the active team members for the current plan" 409)
      pure found)
      db

-- `_lock_team`: the row lock itself has no effect on one transaction.
unfoldable pub lock_team : ℕ → Action Database (Unit {0})
lock_team tenant_id db =
    raise_if (is_none (find_account tenant_id db)) (workflow_error "Tenant not found" 404) db

-- ===== src/Tenant/Team.antt =====
-- The operations of `TenantService` that change the members of a team.
use rubrica_back.Base.{
  ℕ, String, Bool, true, false, ◌&&◌, ◌||◌, not, Option, none, some, List, [], ◌∷◌, ◌++◌, ltb, leb,
  ◌==◌, if◌then◌else◌, find, keep, map, length, contains, is_subset,
}
use rubrica_back.Base.Actions.{
  ok, workflow_error, Action, raise_if, modify, or_raise, transaction, ◌>>=◌, ◌>>◌,
}
use rubrica_back.Store.{
  Instant, Member, MemberStatus, enrolled, suspended, Role, admin, member, auditor, TenantAudit,
  Database,
}
use rubrica_back.Tenant.Members.{
  is_enrolled, is_admin, belongs, holds_seat, active_count, member_limit, Caller, require_role,
  lock_team,
}

-- `_audit`
abbrev pub record_audit : ℕ → String → String → List ℕ → Database → Database
record_audit tenant_id actor action ids db =
    let event : TenantAudit = record {
      tenant_id = tenant_id;
      actor_id = actor;
      action = action;
      member_ids = ids;
    } in
    record db { audit = db.audit ++ event ∷ [] }

abbrev pub instant_le : Option Instant → Option Instant → Bool
instant_le none none = true
instant_le none (some _) = false
instant_le (some _) none = true
instant_le (some a) (some b) = leb a b

abbrev pub same_instant : Option Instant → Option Instant → Bool
same_instant none none = true
same_instant (some a) (some b) = a == b
same_instant _ _ = false

-- `ORDER BY joined_at, created_at, id`; PostgreSQL puts the rows without `joined_at` last.
unfoldable pub precedes : Member → Member → Bool
precedes a b =
    if not (same_instant a.joined_at b.joined_at)
    then instant_le a.joined_at b.joined_at
    else if not (a.created_at == b.created_at)
    then ltb a.created_at b.created_at
    else leb a.id b.id

unfoldable pub place : Member → List Member → List Member
place m [] = m ∷ []
place m (x ∷ xs) = let rest = place m xs in if precedes m x then m ∷ x ∷ xs else x ∷ rest

unfoldable pub order_members : List Member → List Member
order_members [] = []
order_members (m ∷ ms) = place m (order_members ms)

-- The writes `member.status = …` of a row of the table.
abbrev pub set_status : (Member → Bool) → MemberStatus → Member → Member
set_status p st m = if p m then record m { status = st } else m

-- `reconcile_single_member_plan`
unfoldable pub reconcile_single_member_plan : Instant → ℕ → Database → Database
unfolding order_members place precedes
reconcile_single_member_plan now tenant_id db = elim (member_limit now tenant_id db) [
  | none ↦ db
  | some limit ↦
      let active_members = order_members (keep (holds_seat tenant_id) db.members) in
      elim (limit == 1) [
        | false ↦ db
        | true ↦ elim (find (λ m. is_admin m.role) active_members) [
          | none ↦ db
          | some administrator ↦
              let others = keep (λ m. not (m.id == administrator.id)) active_members in
              let leaves =
                λ (m : Member). holds_seat tenant_id m && not (m.id == administrator.id) in
              let written = record db { members = map (set_status leaves suspended) db.members } in
              elim (length others == 0) [
                | true ↦ written
                | false ↦
                    record_audit tenant_id administrator.auth_user_id
                      "tenant.team_reconciled_after_downgrade" (map (λ m. m.id) others) written
              ]
        ]
      ]
]

-- `TenantTeamRead`
pub record TeamRead : Type 0 where
  pub members : List Member
  pub limit : Option ℕ
  pub seats : ℕ
  pub requires_selection : Bool
  pub can_manage : Bool
  pub current_member_id : ℕ

-- `_team_read`; the order of the members is the database's.
unfoldable pub team_read : Instant → ℕ → Member → Database → TeamRead
team_read now tenant_id reader db = record {
  members = keep (belongs tenant_id) db.members;
  limit = member_limit now tenant_id db;
  seats = active_count tenant_id db;
  requires_selection = elim (member_limit now tenant_id db) [
    | none ↦ false
    | some limit ↦ ltb limit (active_count tenant_id db)
  ];
  can_manage = is_admin reader.role;
  current_member_id = reader.id;
}

abbrev pub over : Option ℕ → ℕ → Bool
over none n = false
over (some limit) n = ltb limit n

abbrev pub full : Option ℕ → ℕ → Bool
full none n = false
full (some limit) n = leb limit n

-- `team`
unfoldable pub team : Instant → ℕ → Caller → Action Database TeamRead
team now tenant_id caller = transaction (do
  reader ← require_role now tenant_id caller is_admin true
  modify (reconcile_single_member_plan now tenant_id)
  λ db. (ok (team_read now tenant_id reader db), db))

-- `set(payload.active_member_ids)`: the list without repeats.
unfoldable pub distinct_ids : List ℕ → List ℕ
distinct_ids [] = []
distinct_ids (x ∷ xs) = let rest = distinct_ids xs in if contains x rest then rest else x ∷ rest

-- The loop of `update_team` on one row.
abbrev pub select_member : ℕ → List ℕ → Member → Member
select_member tenant_id selected m =
    if belongs tenant_id m
    then record m { status = if contains m.id selected then enrolled else suspended }
    else m

abbrev pub status_differs : List ℕ → Member → Bool
status_differs selected m =
    if contains m.id selected then not (is_enrolled m.status) else is_enrolled m.status

-- `update_team`
unfoldable pub update_team : Instant → ℕ → List ℕ → Caller → Action Database TeamRead
update_team now tenant_id active_member_ids caller = transaction λ start.
    (do
      lock_team tenant_id
      actor ← require_role now tenant_id caller is_admin true
      let members = keep (belongs tenant_id) start.members
      let selected = distinct_ids active_member_ids
      raise_if (not (is_subset selected (map (λ m. m.id) members)))
          (workflow_error "Member does not belong to this tenant" 422)
      raise_if (not (contains actor.id selected))
          (workflow_error "Keep your administrator account active" 409)
      raise_if (over (member_limit now tenant_id start) (length selected))
          (workflow_error "The current plan allows up to that many tenant members" 409)
      let changed = keep (status_differs selected) members
      modify (λ db. record db { members = map (select_member tenant_id selected) db.members })
      modify (λ db.
          if length changed == 0
          then db
          else record_audit tenant_id caller.subject "tenant.team_updated" (map (λ m. m.id) changed)
              db)
      λ db. (ok (team_read now tenant_id actor db), db))
      start

abbrev pub same_role : Role → Role → Bool
same_role admin admin = true
same_role member member = true
same_role auditor auditor = true
same_role _ _ = false

-- The write `member.role = …` of one row.
abbrev pub set_role : ℕ → Role → Member → Member
set_role member_id role m = if m.id == member_id then record m { role = role } else m

-- `update_member_role`
unfoldable pub update_member_role : Instant → ℕ → ℕ → Role → Caller → Action Database TeamRead
update_member_role now tenant_id member_id role caller = transaction λ start.
    (do
      lock_team tenant_id
      actor ← require_role now tenant_id caller is_admin true
      found ←
          or_raise (find (λ m. m.id == member_id && belongs tenant_id m) start.members)
            (workflow_error "Member does not belong to this tenant" 404)
      raise_if (found.id == actor.id || is_admin found.role)
          (workflow_error "The tenant administrator role cannot be changed" 409)
      modify (λ db. record db { members = map (set_role member_id role) db.members })
      modify (λ db.
          if same_role found.role role
          then db
          else record_audit tenant_id caller.subject "tenant.member_role_updated" (member_id ∷ [])
              db)
      λ db. (ok (team_read now tenant_id actor db), db))
      start

-- ===== src/Tenant/Seats.antt =====
-- Seats: who may invite, and that no operation that adds or selects members exceeds the plan.
use rubrica_back.Base.{
  ℕ, ◌+◌, ◌≡◌, ◌≢◌, ◌↔◌, refl, String, true, false, not, Option, none, some, List, [], ◌∷◌, ◌++◌,
  arith, inl, inr, Option-cases, Bool-cases, ◌==◌, if◌then◌else◌, count, str_eq, str_eq_iff,
}
use rubrica_back.Base.Actions.{Result, ok, err}
use rubrica_back.Store.{Instant, Member, Tenant, Database}
use rubrica_back.Billing.Product.{normalize_product_code, plan_member_limit, is_business_product}
use rubrica_back.Billing.Access.{find_account, has_business_features, business_features_enabled}
use rubrica_back.Tenant.Members.{
  holds_seat, active_count, member_limit, team_over_limit, Caller, require_role, lock_team,
}
use rubrica_back.Tenant.Team.{full}
use rubrica_back.Tenant.Enrollment.{check_seat, MemberCreate, enroll, add_member, invite_member}

-- The seats of a product code; no code has one.
abbrev seats : Option String → ℕ
seats none = 1
seats (some code) = plan_member_limit code

business-seats_text :
    (v : String)
    → is_business_product (if str_eq v "rubrica_mvp" then "rubrica_base" else v)
      ≡ not (plan_member_limit v == 1)
unfolding is_business_product plan_member_limit
business-seats_text v = elim (Bool-cases (str_eq v "rubrica_mvp")) [
  | inl old ↦ rw ((str_eq_iff v "rubrica_mvp").0 old)
  | inr other ↦ ground arith
]

business-seats :
    (code : Option String)
    → is_business_product (normalize_product_code code) ≡ not (seats code == 1)
unfolding normalize_product_code is_business_product plan_member_limit
business-seats none = refl
business-seats (some String.[]) = refl
business-seats (some (String.◌∷◌ c s)) = business-seats_text (String.◌∷◌ c s)

-- Business features are enabled exactly for the tenants whose team may have more than one member.
pub business_features-member_limit :
    (now : Instant) (t : ℕ) (db : Database)
    → (business_features_enabled now t db ≡ true) ↔ (member_limit now t db ≢ some 1)
unfolding business_features_enabled has_business_features member_limit
business_features-member_limit now t db = elim (Option-cases (find_account t db)) [
  | inl missing ↦ (ground arith, ground arith)
  | inr (a, found) ↦ (
    ground (arith, business-seats a.current_product_code),
    ground (arith, business-seats a.current_product_code),
  )
]

active_count-append :
    (t : ℕ) (m : Member) (ms : List Member)
    → holds_seat t m ≡ true
    → count (holds_seat t) (ms ++ m ∷ []) ≡ count (holds_seat t) ms + 1
active_count-append t m [] h = ground arith
active_count-append t m (x ∷ ms) h = ground (arith, active_count-append t m ms h)

check_seat_state :
    (now : Instant) (t : ℕ) (caller : Caller) (db : Database)
    → ((check_seat now t caller db).1 ≡ db)
unfolding check_seat lock_team require_role
check_seat_state now t caller db = grind arith

check_seat-full :
    (now : Instant) (t : ℕ) (caller : Caller) (db : Database) (tenant : Tenant)
    → (check_seat now t caller db).0 ≡ ok tenant
    → full (member_limit now t db) (active_count t db) ≡ false
unfolding check_seat lock_team require_role
check_seat-full now t caller db tenant h = grind arith

-- The limit depends on the account alone.
pub member_limit_accounts :
    (now : Instant) (t : ℕ) (db db' : Database)
    → db'.accounts ≡ db.accounts
    → member_limit now t db' ≡ member_limit now t db
unfolding member_limit find_account
member_limit_accounts now t db db' h = rw h

-- One more member where a seat is free.
seat_added :
    (now : Instant) (t : ℕ) (m : Member) (db db' : Database)
    → db'.accounts ≡ db.accounts
    → db'.members ≡ db.members ++ m ∷ []
    → holds_seat t m ≡ true
    → full (member_limit now t db) (active_count t db) ≡ false
    → (team_over_limit now t db' ≡ false) × (active_count t db' ≡ active_count t db + 1)
unfolding team_over_limit active_count
seat_added now t m db db' same added seat room =
    let counted : count (holds_seat t) db'.members ≡ count (holds_seat t) db.members + 1 =
      rw added (active_count-append t m db.members seat) in
    (ground (arith, counted, member_limit_accounts now t db db' same), counted)

-- What an addition of a member has done: refused, nothing; granted, the team is within its plan and
-- has one active member more.
abbrev pub Adds : Instant → ℕ → Database → Result (Unit {0}) × Database → Type 0
Adds now t db (ok _, db') =
    (team_over_limit now t db' ≡ false) × (active_count t db' ≡ active_count t db + 1)
Adds now t db (err _, db') = db' ≡ db

enroll-holds_seat :
    (now : Instant) (t : ℕ) (payload : MemberCreate) → holds_seat t (enroll now t payload) ≡ true
enroll-holds_seat now t payload = ground arith

module _ (now : Instant) (t : ℕ) (payload : MemberCreate) (caller : Caller) (db : Database) where
  -- `add_member` adds a member only where a seat of the plan is free: the team is then still within
  -- its plan, with one active member more. A refused call changes nothing.
  pub add_member-Adds : Adds now t db (add_member now t payload caller db)
  unfolding add_member
  add_member-Adds = grind (
    arith,
    check_seat_state now t caller db,
    check_seat-full now t caller db,
    seat_added now t (enroll now t payload) db,
    enroll-holds_seat now t payload,
  )

  -- `invite_member` adds a member only where a seat of the plan is free: the team is then still
  -- within its plan, with one active member more. A refused call changes nothing.
  pub invite_member-Adds : Adds now t db (invite_member now t payload caller db)
  unfolding invite_member
  invite_member-Adds = grind (
    arith,
    check_seat_state now t caller db,
    check_seat-full now t caller db,
    seat_added now t (enroll now t payload) db,
    enroll-holds_seat now t payload,
  )

-- ===== src/Tenant/Selection.antt =====
-- `update_team`: the selection of the active members of a team.
use rubrica_back.Base.{ℕ, ◌≡◌, false, List, [], ◌∷◌, ◌==◌, if◌then◌else◌, count, map, contains}
use rubrica_back.Base.Actions.{Result, ok, err}
use rubrica_back.Store.{Instant, Member, Database}
use rubrica_back.Tenant.Members.{holds_seat, team_over_limit}
use rubrica_back.Tenant.Team.{distinct_ids, select_member, TeamRead}

-- No two rows have one identifier.
abbrev pub IsDistinct : List Member → Type 0
IsDistinct [] = Unit
IsDistinct (m ∷ ms) = (contains m.id (map (λ x. x.id) ms) ≡ false) × IsDistinct ms

abbrev remove : ℕ → List ℕ → List ℕ
remove a [] = []
remove a (x ∷ xs) = let rest = remove a xs in if a == x then rest else x ∷ rest

-- The active members that a selection leaves in a list of rows.
abbrev selected_count : ℕ → List ℕ → List Member → ℕ
selected_count t selected ms = count (holds_seat t) (map (select_member t selected) ms)

-- What `update_team` has done: refused, nothing; granted, the rows are as selected, the caller's
-- team is within its plan, and the returned view asks for no further selection.
abbrev pub Selects : Instant → ℕ → List ℕ → Database → Result TeamRead × Database → Type 0
Selects now t ids db (ok read, db') =
    (db'.members ≡ map (select_member t (distinct_ids ids)) db.members)
    × (team_over_limit now t db' ≡ false)
    × (read.requires_selection ≡ false)
Selects now t ids db (err _, db') = db' ≡ db

-- ===== src/Tenant/Downgrade.antt =====
-- `reconcile_single_member_plan`: what a downgrade to a plan with one seat leaves of a team.
use rubrica_back.Base.{
  ℕ, ◌≡◌, refl, sym, Bool, true, false, ◌&&◌, ◌||◌, not, some, List, [], ◌∷◌, arith, inl, inr,
  Bool-cases, ◌==◌, count, map, contains, keep, find, any, ◌∙◌,
}
use rubrica_back.Store.{Instant, Member, suspended, Database}
use rubrica_back.Tenant.Members.{is_admin, holds_seat, active_count, member_limit}
use rubrica_back.Tenant.Team.{place, order_members, set_status, reconcile_single_member_plan}
use rubrica_back.Tenant.Selection.{IsDistinct}

any-place :
    (p : Member → Bool) (m : Member) (xs : List Member) → any p (place m xs) ≡ (p m || any p xs)
unfolding place
any-place p m [] = refl
any-place p m (x ∷ xs) = ground (arith, any-place p m xs)

any-order_members : (p : Member → Bool) (xs : List Member) → any p (order_members xs) ≡ any p xs
unfolding order_members
any-order_members p [] = refl
any-order_members p (x ∷ xs) =
    ground (arith, any-place p x (order_members xs), any-order_members p xs)

any-keep : (p s : Member → Bool) (xs : List Member) → any p (keep s xs) ≡ any (λ x. s x && p x) xs
any-keep p s [] = refl
any-keep p s (x ∷ xs) = ground (arith, any-keep p s xs)

any_of_find :
    (p q : Member → Bool) (xs : List Member) (a : Member)
    → find p xs ≡ some a
    → q a ≡ true
    → any q xs ≡ true
any_of_find p q [] a h e = cc
any_of_find p q (x ∷ xs) a h e = ground (arith, any_of_find p q xs a)

find_of_any :
    (p : Member → Bool) (xs : List Member)
    → any p xs ≡ true
    → (a : Member) × (find p xs ≡ some a) × (p a ≡ true)
find_of_any p [] h = absurd (ground arith)
find_of_any p (x ∷ xs) h = elim (Bool-cases (p x)) [
  | inl here ↦ (x, rw here, here)
  | inr there ↦
      let (a, found, passes) = find_of_any p xs (ground arith) in (a, rw (there, found), passes)
]

module _ (t i : ℕ) where
  abbrev leaves : Member → Bool
  leaves m = holds_seat t m && not (m.id == i)

  abbrev stays : Member → Bool
  stays m = holds_seat t m && (m.id == i)

  none_stay :
      (ms : List Member)
      → contains i (map (λ x. x.id) ms) ≡ false
      → count (holds_seat t) (map (set_status leaves suspended) ms) ≡ 0
  none_stay [] h = refl
  none_stay (m ∷ ms) h = ground (arith, none_stay ms)

  one_stays :
      (ms : List Member)
      → IsDistinct ms
      → any stays ms ≡ true
      → count (holds_seat t) (map (set_status leaves suspended) ms) ≡ 1
  one_stays [] d h = absurd (ground arith)
  one_stays (m ∷ ms) d h = ground (arith, none_stay ms, one_stays ms d.1)

module _ (now : Instant) (t : ℕ) (db : Database) where
  abbrev active_admin : Member → Bool
  active_admin m = holds_seat t m && is_admin m.role

  -- On a plan with one seat, and where members have distinct identifiers, a team that has an active
  -- administrator keeps exactly one active member.
  pub reconcile_single_member_plan_lem :
      IsDistinct db.members
      → member_limit now t db ≡ some 1
      → any active_admin db.members ≡ true
      → active_count t (reconcile_single_member_plan now t db) ≡ 1
  unfolding reconcile_single_member_plan active_count
  reconcile_single_member_plan_lem distinct one present =
      let seated = order_members (keep (holds_seat t) db.members) in
      let chosen : any (λ m. is_admin m.role) seated ≡ true =
        any-order_members (λ m. is_admin m.role) (keep (holds_seat t) db.members)
        ∙ any-keep (λ m. is_admin m.role) (holds_seat t) db.members
        ∙ present in
      let (a, found, _) = find_of_any (λ m. is_admin m.role) seated chosen in
      let kept : any (stays t a.id) db.members ≡ true =
        sym (
          any-order_members (λ m. m.id == a.id) (keep (holds_seat t) db.members)
          ∙ any-keep (λ m. m.id == a.id) (holds_seat t) db.members)
        ∙ any_of_find (λ m. is_admin m.role) (λ m. m.id == a.id) seated a found (ground arith) in
      let alone = one_stays t a.id db.members distinct kept in ground (arith, one, found, alone)

-- ===== src/Base/Keyed.antt =====
-- Tables: dicts whose rows hold their own key.
use Prim.Native.Nat.{ℕ}
use mathlib.Core.Path.{◌≡◌}
use mathlib.Core.Bool.{Bool, true, false}
use mathlib.Core.Option.{none, some}
use mathlib.Core.List.{[], ◌∷◌}
use native.Mathlib.Omega.{arith}
use rubrica_back.Base.Lists.{find, count, any}
use rubrica_back.Base.Dict.{Dict, lookup, insert, values, lookup-insert}

module _ {V : Type 0} (key : V → ℕ) where
  -- Every row stands under its own key, and no key is listed twice.
  unfoldable pub IsTable : Dict V → Type 0
  IsTable [] = Unit
  IsTable ((k, v) ∷ d) = (key v ≡ k) × (lookup k d ≡ none) × IsTable d

  pub lookup-key : (k : ℕ) (v : V) (d : Dict V) → IsTable d → lookup k d ≡ some v → key v ≡ k
  unfolding IsTable lookup
  lookup-key k v [] h e = ground (arith, e)
  lookup-key k v ((j, w) ∷ d) h e = ground (arith, lookup-key k v d)

  pub insert-IsTable : (k : ℕ) (v : V) (d : Dict V) → key v ≡ k → IsTable d → IsTable (insert k v d)
  unfolding IsTable insert lookup
  insert-IsTable k v [] e h = ground arith
  insert-IsTable k v ((j, w) ∷ d) e h = ground (arith, lookup-insert k j v d, insert-IsTable k v d)

  -- A row that a query finds stands under its key.
  pub find-values :
      (p : V → Bool) (v : V) (d : Dict V)
      → IsTable d
      → find p (values d) ≡ some v
      → (p v ≡ true) × (lookup (key v) d ≡ some v)
  unfolding IsTable lookup values
  find-values p v [] h e = ground (arith, e)
  find-values p v ((j, w) ∷ d) h e = grind (arith, find-values p v d)

module _ {V : Type 0} (p : V → Bool) where
  pub count-lookup :
      (k : ℕ) (v : V) (d : Dict V) → count p (values d) ≡ 0 → lookup k d ≡ some v → p v ≡ false
  unfolding lookup values
  count-lookup k v [] h e = ground (arith, e)
  count-lookup k v ((j, w) ∷ d) h e = grind (arith, count-lookup k v d)

  pub any-lookup :
      (k : ℕ) (v : V) (d : Dict V) → any p (values d) ≡ false → lookup k d ≡ some v → p v ≡ false
  unfolding lookup values
  any-lookup k v [] h e = ground (arith, e)
  any-lookup k v ((j, w) ∷ d) h e = grind (arith, any-lookup k v d)

-- ===== src/Base/Dict.antt =====
-- A Python dict keyed by identifiers, in insertion order.
use Prim.Native.Nat.{ℕ}
use Prim.Native.String.{String}
use text.Mathlib.Text.{◌==◌ as str_eq}
use text.Mathlib.TextEquality.{eq_iff as str_eq_iff}
use mathlib.Core.Path.{◌≡◌, refl}
use mathlib.Core.Option.{Option, none, some}
use mathlib.Core.List.{List, [], ◌∷◌}
use native.Mathlib.Omega.{arith}
use rubrica_back.Base.Tests.{◌==◌, if◌then◌else◌}

abbrev pub Dict : Type 0 → Type 0
Dict V = List (ℕ × V)

module _ {V : Type 0} where
  -- `d.get(k)`
  unfoldable pub lookup : ℕ → Dict V → Option V
  lookup k [] = none
  lookup k ((j, v) ∷ d) = if k == j then some v else lookup k d

  -- `d[k] = v`
  unfoldable pub insert : ℕ → V → Dict V → Dict V
  insert k v [] = (k, v) ∷ []
  insert k v ((j, w) ∷ d) = if k == j then (k, v) ∷ d else (j, w) ∷ insert k v d

  -- `del d[k]`; the keys of a dict are distinct, so every entry of the key goes
  unfoldable pub erase : ℕ → Dict V → Dict V
  erase k [] = []
  erase k ((j, w) ∷ d) = let rest = erase k d in if k == j then rest else (j, w) ∷ rest

  -- `d.values()`
  unfoldable pub values : Dict V → List V
  values [] = []
  values ((j, w) ∷ d) = w ∷ values d

  pub lookup-insert :
      (k j : ℕ) (v : V) (d : Dict V)
      → lookup j (insert k v d) ≡ (if j == k then some v else lookup j d)
  unfolding lookup insert
  lookup-insert k j v [] = refl
  lookup-insert k j v ((i, w) ∷ d) = ground (arith, lookup-insert k j v d)

module _ {V : Type 0} where
  -- No key is listed twice, as in every Python dict.
  unfoldable pub IsDict : Dict V → Type 0
  IsDict [] = Unit
  IsDict ((k, v) ∷ d) = (lookup k d ≡ none) × IsDict d

  pub insert-IsDict : (k : ℕ) (v : V) (d : Dict V) → IsDict d → IsDict (insert k v d)
  unfolding IsDict insert lookup
  insert-IsDict k v [] h = (refl, tt)
  insert-IsDict k v ((j, w) ∷ d) h = ground (arith, lookup-insert k j v d, insert-IsDict k v d h.1)

-- A dict keyed by texts.
abbrev pub TextDict : Type 0 → Type 0
TextDict V = List (String × V)

module _ {V : Type 0} where
  unfoldable pub lookup_text : String → TextDict V → Option V
  lookup_text k [] = none
  lookup_text k ((j, v) ∷ d) = if str_eq k j then some v else lookup_text k d

  unfoldable pub insert_text : String → V → TextDict V → TextDict V
  insert_text k v [] = (k, v) ∷ []
  insert_text k v ((j, w) ∷ d) = if str_eq k j then (k, v) ∷ d else (j, w) ∷ insert_text k v d

  -- `DEL`
  unfoldable pub erase_text : String → TextDict V → TextDict V
  erase_text k [] = []
  erase_text k ((j, v) ∷ d) =
      let rest = erase_text k d in if str_eq k j then rest else (j, v) ∷ rest

  pub lookup_text-erase_text :
      (k j : String) (d : TextDict V)
      → lookup_text j (erase_text k d) ≡ (if str_eq j k then none else lookup_text j d)
  unfolding lookup_text erase_text
  lookup_text-erase_text k j [] = ground arith
  lookup_text-erase_text k j ((i, w) ∷ d) =
      ground (arith, str_eq_iff k i, str_eq_iff j i, str_eq_iff j k, lookup_text-erase_text k j d)

  pub lookup_text-insert_text :
      (k j : String) (v : V) (d : TextDict V)
      → lookup_text j (insert_text k v d) ≡ (if str_eq j k then some v else lookup_text j d)
  unfolding lookup_text insert_text
  lookup_text-insert_text k j v [] = refl
  lookup_text-insert_text k j v ((i, w) ∷ d) = ground (
    arith,
    str_eq_iff k j,
    str_eq_iff k i,
    str_eq_iff j i,
    str_eq_iff j k,
    lookup_text-insert_text k j v d,
  )

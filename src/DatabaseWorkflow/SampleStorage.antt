-- ===== src/DatabaseWorkflow/SampleStorage.antt =====
-- An object storage for the tests: the objects in the order in which they were put, each under a key
-- that says how many there were before it. It satisfies what the services rely on.
use rubrica_back.Base.{
  ℕ, zero, suc, ◌+◌, ◌≡◌, ◌≢◌, refl, ap, String, Option, none, some, List, [], ◌∷◌, ◌++◌, arith,
  length, str_eq, str_eq_iff, if◌then◌else◌,
}
use rubrica_back.Workflow.Types.{Bytes}

abbrev pub Objects : Type 0
Objects = List (Option Bytes)

abbrev pub key_of : ℕ → String
key_of zero = "k"
key_of (suc n) = let rest = key_of n in String.◌∷◌ "x" rest

-- The object under the key, where the first object has the number `n`.
abbrev pub get_from : ℕ → String → Objects → Option Bytes
get_from n key [] = none
get_from n key (o ∷ os) =
    let later = get_from (suc n) key os in if str_eq key (key_of n) then o else later

abbrev pub discard_from : ℕ → String → Objects → Objects
discard_from n key [] = []
discard_from n key (o ∷ os) =
    let later = discard_from (suc n) key os in (if str_eq key (key_of n) then none else o) ∷ later

text_length : String → ℕ
text_length String.[] = 0
text_length (String.◌∷◌ c s) = suc (text_length s)

text_length-key_of : (n : ℕ) → text_length (key_of n) ≡ suc n
unfolding text_length
text_length-key_of zero = refl
text_length-key_of (suc n) = ap (λ (m : ℕ). suc m) (text_length-key_of n)

key_of_injective : (m n : ℕ) → key_of m ≡ key_of n → m ≡ n
key_of_injective m n e =
    ground (arith, ap text_length e, text_length-key_of m, text_length-key_of n)

pub get_from-fresh : (n : ℕ) (f : Objects) → get_from n (key_of (n + length f)) f ≡ none
get_from-fresh n [] = refl
get_from-fresh n (o ∷ f) = ground (
  arith,
  get_from-fresh (suc n) f,
  str_eq_iff (key_of (n + length (o ∷ f))) (key_of n),
  key_of_injective (n + length (o ∷ f)) n,
)

pub get_from-put :
    (n : ℕ) (content : Bytes) (f : Objects)
    → get_from n (key_of (n + length f)) (f ++ some content ∷ []) ≡ some content
get_from-put n content [] = ground (arith, str_eq_iff (key_of n) (key_of n))
get_from-put n content (o ∷ f) = ground (
  arith,
  get_from-put (suc n) content f,
  str_eq_iff (key_of (n + length (o ∷ f))) (key_of n),
  key_of_injective (n + length (o ∷ f)) n,
)

pub get_from-other :
    (n : ℕ) (key : String) (content : Bytes) (f : Objects)
    → key ≢ key_of (n + length f)
    → get_from n key (f ++ some content ∷ []) ≡ get_from n key f
get_from-other n key content [] h = ground (arith, str_eq_iff key (key_of n), h)
get_from-other n key content (o ∷ f) h = ground (arith, get_from-other (suc n) key content f)

pub get_from-discard_from :
    (n : ℕ) (key other : String) (f : Objects)
    → other ≢ key
    → get_from n other (discard_from n key f) ≡ get_from n other f
get_from-discard_from n key other [] h = refl
get_from-discard_from n key other (o ∷ f) h = ground (
  arith,
  get_from-discard_from (suc n) key other f h,
  str_eq_iff key (key_of n),
  str_eq_iff other (key_of n),
)

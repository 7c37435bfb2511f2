-- ===== src/Base/Actions.antt =====
-- Code that changes a state and may raise. What was written before a raise stays written, so the
-- state comes back beside the error too; a database transaction takes it back.
use Prim.Native.Nat.{ℕ}
use Prim.Native.String.{String}
use mathlib.Core.Path.{◌≡◌, refl}
use mathlib.Core.Bool.{Bool}
use mathlib.Core.Option.{Option, none, some}
use rubrica_back.Base.Tests.{if◌then◌else◌}

-- `WorkflowError(message, status_code)`. Where the source formats a number or a name into the
-- message, `message` is its fixed part.
pub record Error : Type 0 where
  pub message : String
  pub status_code : ℕ

pub data Result (A : Type 0) : Type 0 where
  ok : A → Result A
  err : Error → Result A

abbrev pub workflow_error : String → ℕ → Error
workflow_error m c = record { message = m; status_code = c }

abbrev pub Action : Type 0 → Type 0 → Type 0
Action S A = S → Result A × S

module _ {S A : Type 0} where
  abbrev pub pure : A → Action S A
  pure a s = (ok a, s)

  abbrev pub raise : Error → Action S A
  raise e s = (err e, s)

  abbrev pub or_raise : Option A → Error → Action S A
  or_raise none e s = (err e, s)
  or_raise (some a) e s = (ok a, s)

  -- `with SessionLocal.begin() as database:` commits at the end of the block, and rolls back
  -- when the block raises.
  abbrev pub transaction : Action S A → Action S A
  transaction m s = let (r, s') = m s in elim r [ ok a ↦ (ok a, s') | err e ↦ (err e, s) ]

-- `IntegrityError` of SQLAlchemy: a constraint of the database is violated.
abbrev pub integrity_error : Error
integrity_error = workflow_error "IntegrityError" 500

abbrev pub raise_if : {S : Type 0} → Bool → Error → Action S (Unit {0})
raise_if c e s = (if c then err e else ok tt, s)

abbrev pub modify : {S : Type 0} → (S → S) → Action S (Unit {0})
modify f s = (ok tt, f s)

infixl 5 ◌>>=◌ ◌>>◌
abbrev pub ◌>>=◌ : {S A B : Type 0} → Action S A → (A → Action S B) → Action S B
◌>>=◌ m f s = let (r, s') = m s in elim r [ ok a ↦ f a s' | err e ↦ (err e, s') ]

abbrev pub ◌>>◌ : {S A B : Type 0} → Action S A → Action S B → Action S B
m >> k = m >>= λ _. k

-- What holds of the state that an action leaves when it returns.
abbrev pub After : {S A : Type 0} → (S → Type 0) → Result A × S → Type 0
After P (ok _, s) = P s
After P (err _, s) = Unit

-- An action goes on from the result and the state of the first one, where that returns.
pub bind_either :
    {S A B : Type 0} (Q : Result B × S → Type 0) (m : Result A × S) (f : A → Action S B) (u : S)
    → ((e : Error) (s : S) → Q (err e, s))
    → ((a : A) → m.0 ≡ ok a → Q (f a m.1))
    → Q (((λ (_ : S). m) >>= f) u)
bind_either Q (ok a, s) f u k h = h a refl
bind_either Q (err e, s) f u k h = k e s

pub bind-After :
    {S A B : Type 0} (P : S → Type 0) (m : Result A × S) (f : A → Action S B) (u : S)
    → ((a : A) → m.0 ≡ ok a → After P (f a m.1))
    → After P (((λ (_ : S). m) >>= f) u)
bind-After P m f u h = bind_either (After P) m f u (λ e s. tt) h

pub returned-After : {S A : Type 0} (P : S → Type 0) (m : Result A × S) → P m.1 → After P m
returned-After P (ok a, s) h = h
returned-After P (err e, s) h = tt

-- ===== src/Base/Result.antt =====
-- Go errors as values, and the results of fallible calls.
--
-- An error is its text with the answers of the predicates that the source asks of it:
-- `apierrors.IsNotFound`, `IsForbidden`, `IsTimeout`, `IsServiceUnavailable`, and
-- `errors.Is(err, context.DeadlineExceeded)`. They look through `fmt.Errorf("...: %w", err)`.
use mathlib.Core.Bool.{Bool, false}
use mathlib.Core.List.{◌++◌}
use mathlib.Core.Option.{Option, none, some}
use mathlib.Core.Path.{◌≡◌, refl, subst}
use mathlib.Core.Logic.{◌⊎◌, inl, inr}
use dev_plane.Base.Text.{Text, lit}

pub record Error : Type 0 where
  pub text : Text
  pub not_found : Bool
  pub forbidden : Bool
  pub timeout : Bool
  pub unavailable : Bool
  pub deadline : Bool

-- `errors.New(text)`
abbrev pub new_error : Text → Error
new_error t = record {
  text = t;
  not_found = false;
  forbidden = false;
  timeout = false;
  unavailable = false;
  deadline = false;
}

-- `fmt.Errorf("<prefix>: %w", err)`
abbrev pub wrap : Text → Error → Error
wrap prefix err = record err { text = prefix ++ lit ": " ++ err.text }

pub data Result {ℓ} (A : Type ℓ) : Type ℓ where
  ok : A → Result A
  fail : Error → Result A

infixl 5 ◌>>=◌
abbrev pub ◌>>=◌ {ℓ κ} : {A : Type ℓ} {B : Type κ} → Result A → (A → Result B) → Result B
ok a >>= f = f a
fail e >>= f = fail e

-- The `if err := f(); err != nil` test of a call that returns only an error.
abbrev pub attempt : Option Error → Result (Unit {0})
attempt none = ok tt
attempt (some e) = fail e

pub Result-cases {ℓ} :
    {A : Type ℓ} (r : Result A) → ((a : A) × (r ≡ ok a)) ⊎ ((e : Error) × (r ≡ fail e))
Result-cases (ok a) = inl (a, refl)
Result-cases (fail e) = inr (e, refl)

-- What holds of the value, if there is one.
abbrev pub OnOk {ℓ κ} : {A : Type ℓ} → (A → Type κ) → Result A → Type κ
OnOk P (ok a) = P a
OnOk P (fail e) = Unit

-- What holds of every value that the last step returns holds of the result.
pub ok_of_bind {ℓ κ μ} :
    {A : Type ℓ} {B : Type κ} (P : B → Type μ) (f : A → B) (r : Result A) (b : B)
    → ((a : A) → P (f a))
    → (r >>= (λ a. ok (f a))) ≡ ok b
    → P b
ok_of_bind P f (ok a) b p h = subst (OnOk P) h (p a)
ok_of_bind P f (fail e) b p h = cc

-- A chain that ends well went through a value.
pub bind_ok {ℓ κ} :
    {A : Type ℓ} {B : Type κ} (r : Result A) (f : A → Result B) (b : B)
    → (r >>= f) ≡ ok b
    → (a : A) × (r ≡ ok a) × (f a ≡ ok b)
bind_ok (ok a) f b h = (a, refl, h)
bind_ok (fail e) f b h = cc

-- ===== src/Base/Text/Decimal.antt =====
-- Numbers and their decimal texts.
use dev_plane.Base.Tests.{ltb, Bool-cases}
use dev_plane.Base.Lists.{All, is_empty}
use dev_plane.Base.Text.{Text, digits, decimal}
use Prim.Native.Nat.{ℕ, zero, suc, ◌+◌, ◌-◌, ◌*◌, ◌/◌, ◌%◌, ◌^◌, ◌≤◌, ◌<◌}
use mathlib.Core.Path.{◌≡◌, refl, ap, ◌∙◌, sym}
use mathlib.Core.Logic.{inl, inr}
use mathlib.Core.Bool.{false}
use mathlib.Core.List.{[], ◌∷◌}
use native.Mathlib.Nat.{pow-suc}
use native.Mathlib.Omega.{arith}

-- The number that decimal digits stand for, after those of `n`.
abbrev pub value_from : ℕ → Text → ℕ
value_from n [] = n
value_from n (c ∷ s) = value_from (n * 10 + (c - b'0')) s

value_from-digits :
    (fuel n : ℕ) (acc : Text) → n < 10 ^ fuel → value_from 0 (digits fuel n acc) ≡ value_from n acc
unfolding digits
value_from-digits zero n acc h = ap (λ x. value_from x acc) (omega arith)
value_from-digits (suc fuel) n acc h = elim (Bool-cases (ltb n 10)) [
  | inl small ↦ rw small (ap (λ x. value_from x acc) (ground arith))
  | inr big ↦
      let p = pow-suc 10 fuel in
      rw big (
        value_from-digits fuel (n / 10) ((b'0' + n % 10) ∷ acc) (omega arith)
        ∙ ap (λ x. value_from x acc) (omega arith))
]

-- Reading the text of a number of at most twenty digits gives the number.
pub value_from-decimal : (n : ℕ) → n < 10 ^ 20 → value_from 0 (decimal n) ≡ n
unfolding decimal
value_from-decimal n h = value_from-digits 20 n [] h

pub decimal-injective : (n m : ℕ) → n < 10 ^ 20 → m < 10 ^ 20 → decimal n ≡ decimal m → n ≡ m
decimal-injective n m hn hm e =
    sym (value_from-decimal n hn) ∙ ap (value_from 0) e ∙ value_from-decimal m hm

-- A decimal digit.
abbrev pub IsDigit : ℕ → Type 0
IsDigit c = (b'0' ≤ c) × (c ≤ b'9')

digits-IsDigit : (fuel n : ℕ) (acc : Text) → All IsDigit acc → All IsDigit (digits fuel n acc)
unfolding digits
digits-IsDigit zero n acc h = h
digits-IsDigit (suc fuel) n acc h = elim (Bool-cases (ltb n 10)) [
  | inl small ↦ rw small (omega arith, h)
  | inr big ↦ rw big (digits-IsDigit fuel (n / 10) ((b'0' + n % 10) ∷ acc) (omega arith, h))
]

pub decimal-IsDigit : (n : ℕ) → All IsDigit (decimal n)
unfolding decimal
decimal-IsDigit n = digits-IsDigit 20 n [] tt

digits-is_empty :
    (fuel n : ℕ) (acc : Text) → is_empty acc ≡ false → is_empty (digits fuel n acc) ≡ false
unfolding digits
digits-is_empty zero n acc h = h
digits-is_empty (suc fuel) n acc h = elim (Bool-cases (ltb n 10)) [
  | inl small ↦ rw small refl
  | inr big ↦ rw big (digits-is_empty fuel (n / 10) ((b'0' + n % 10) ∷ acc) refl)
]

pub decimal-is_empty : (n : ℕ) → is_empty (decimal n) ≡ false
unfolding decimal digits
decimal-is_empty n = elim (Bool-cases (ltb n 10)) [
  | inl small ↦ rw small refl
  | inr big ↦ rw big (digits-is_empty 19 (n / 10) ((b'0' + n % 10) ∷ []) refl)
]

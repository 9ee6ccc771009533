-- ===== src/Base/Text/Decimal.antt =====
-- Decimal printing, and texts with a common beginning.
use Prim.Native.Nat.{ℕ, zero, suc, ◌+◌, ◌-◌, ◌*◌, ◌/◌, ◌%◌, ◌<◌}
use mathlib.Core.Path.{◌≡◌, refl, sym, ap, ◌∙◌}
use mathlib.Core.Logic.{inl, inr}
use mathlib.Core.List.{[], ◌∷◌, ◌++◌, append_cancel_left}
use native.Mathlib.Omega.{arith}
use quantalithos_bus.Base.Tests.{ltb, Bool-cases}
use quantalithos_bus.Base.Text.{Text, show_digits, show}

-- Reading a decimal numeral, digit by digit.
unfoldable pub value : ℕ → Text → ℕ
value acc [] = acc
value acc (c ∷ s) = value (acc * 10 + (c - 48)) s

value-snoc : (acc : ℕ) (s : Text) (c : ℕ) → value acc (s ++ c ∷ []) ≡ value acc s * 10 + (c - 48)
unfolding value
value-snoc acc [] c = refl
value-snoc acc (d ∷ s) c = value-snoc (acc * 10 + (d - 48)) s c

value-show_digits : (f n : ℕ) → n < f → value 0 (show_digits f n) ≡ n
unfolding show_digits value
value-show_digits zero n h = elim h [ ]
value-show_digits (suc f) n h = elim (Bool-cases (ltb n 10)) [
  | inl small ↦ rw small (ground arith)
  | inr big ↦
      rw (big, value-snoc 0 (show_digits f (n / 10)) (48 + n % 10))
        (let smaller : n / 10 < f = ground arith in
          omega (arith, value-show_digits f (n / 10) smaller))
]

-- What is printed reads back as the same number.
pub value-show : (n : ℕ) → value 0 (show n) ≡ n
unfolding show
value-show n = value-show_digits (suc n) n (omega arith)

pub show-injective : (m n : ℕ) → show m ≡ show n → m ≡ n
show-injective m n h = sym (value-show m) ∙ ap (value 0) h ∙ value-show n

-- Two texts with a common beginning.
pub cancel_prefix : (p s t : Text) → p ++ s ≡ p ++ t → s ≡ t
cancel_prefix p s t h = append_cancel_left p s t h

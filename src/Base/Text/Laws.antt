-- ===== src/Base/Text/Laws.antt =====
-- Laws of the text functions.
use Prim.Native.Nat.{ℕ}
use mathlib.Core.Path.{◌≡◌, refl, ap, ◌∙◌}
use mathlib.Core.Logic.{◌≢◌, ◌↔◌}
use mathlib.Core.Bool.{Bool, true, false, not, ◌||◌}
use mathlib.Core.List.{[], ◌∷◌, ◌++◌, reverse, reverse-cons}
use native.Mathlib.Omega.{arith}
use quantalithos_bus.Base.Text.{Text, is_whitespace, is_empty, trim_start, trim, is_blank, text_eq}

-- Some character is no white space.
unfoldable pub has_visible : Text → Bool
has_visible [] = false
has_visible (c ∷ s) = not (is_whitespace c) || has_visible s

pub has_visible-append : (s t : Text) → has_visible (s ++ t) ≡ (has_visible s || has_visible t)
unfolding has_visible
has_visible-append [] t = refl
has_visible-append (c ∷ s) t = ground (arith, has_visible-append s t)

has_visible-reverse : (s : Text) → has_visible (reverse s) ≡ has_visible s
unfolding has_visible
has_visible-reverse [] = refl
has_visible-reverse (c ∷ s) =
    rw (reverse-cons c s, has_visible-append (reverse s) (c ∷ []), has_visible-reverse s)
      (ground arith)

has_visible-trim_start : (s : Text) → has_visible (trim_start s) ≡ has_visible s
unfolding has_visible trim_start
has_visible-trim_start [] = refl
has_visible-trim_start (c ∷ s) = ground (arith, has_visible-trim_start s)

is_empty-trim_start : (s : Text) → is_empty (trim_start s) ≡ not (has_visible s)
unfolding has_visible trim_start is_empty
is_empty-trim_start [] = refl
is_empty-trim_start (c ∷ s) = ground (arith, is_empty-trim_start s)

is_empty-snoc : (s : Text) (c : ℕ) → is_empty (s ++ c ∷ []) ≡ false
unfolding is_empty
is_empty-snoc [] c = refl
is_empty-snoc (d ∷ s) c = refl

is_empty-reverse : (s : Text) → is_empty (reverse s) ≡ is_empty s
unfolding is_empty
is_empty-reverse [] = refl
is_empty-reverse (c ∷ s) = rw (reverse-cons c s) (is_empty-snoc (reverse s) c)

-- A text is blank exactly if it has no visible character.
pub is_blank_lem : (s : Text) → is_blank s ≡ not (has_visible s)
unfolding is_blank trim
is_blank_lem s =
    is_empty-reverse (trim_start (reverse (trim_start s)))
    ∙ is_empty-trim_start (reverse (trim_start s))
    ∙ ap not (has_visible-reverse (trim_start s) ∙ has_visible-trim_start s)

pub text_eq_iff : (s t : Text) → (text_eq s t ≡ true) ↔ (s ≡ t)
unfolding text_eq
text_eq_iff [] [] = ground arith
text_eq_iff [] (d ∷ t) = ground arith
text_eq_iff (c ∷ s) [] = ground arith
text_eq_iff (c ∷ s) (d ∷ t) = ground (arith, text_eq_iff s t)

pub text_eq_refl : (s : Text) → text_eq s s ≡ true
text_eq_refl s = (text_eq_iff s s).1 refl

pub text_eq-false : (s t : Text) → text_eq s t ≡ false → s ≢ t
text_eq-false s t h e = ground (arith, text_eq_iff s t)

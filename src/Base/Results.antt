-- ===== src/Base/Results.antt =====
-- Fallible code: `Result`, and methods on a state, which return the state that they leave behind
-- beside their result, on errors too.
use mathlib.Core.Option.{Option, none, some}

pub data Result {ℓ} (E : Type 0) (A : Type ℓ) : Type ℓ where
  ok : A → Result E A
  err : E → Result E A

-- `result?` in a function that owns its values.
infixl 5 ◌>>=◌
abbrev pub ◌>>=◌ {ℓ κ} :
    {E : Type 0} {A : Type ℓ} {B : Type κ} → Result E A → (A → Result E B) → Result E B
ok a >>= f = f a
err e >>= f = err e

abbrev pub ok_or {ℓ} : {E : Type 0} {A : Type ℓ} → Option A → E → Result E A
ok_or none e = err e
ok_or (some a) e = ok a

-- `self.method()?` in a method: on an error the state stays as the callee left it.
abbrev pub and_then {ℓ κ} :
    {S E : Type 0} {A : Type ℓ} {B : Type κ}
    → S × Result E A
    → (S → A → S × Result E B)
    → S × Result E B
and_then (s, ok a) k = k s a
and_then (s, err e) k = (s, err e)

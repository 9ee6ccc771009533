-- ===== src/Base/Actions.antt =====
-- A method on shared state: it takes the state and returns the state that it leaves, on errors too,
-- beside its result.
use quantalithos_bus.Base.Results.{Result, ok, err, and_then}
use mathlib.Core.Option.{Option, none, some}

abbrev pub Action : Type 0 → Type 0 → Type 0 → Type 0
Action S E A = S → S × Result E A

module _ {S E A : Type 0} where
  unfoldable pub pure : A → Action S E A
  pure a s = (s, ok a)

  unfoldable pub raise : E → Action S E A
  raise e s = (s, err e)

  unfoldable pub lift : Result E A → Action S E A
  lift r s = (s, r)

  unfoldable pub gets : (S → A) → Action S E A
  gets f s = (s, ok (f s))

  -- `ok_or_else(…)?`
  unfoldable pub some_or : E → Option A → Action S E A
  unfolding raise pure
  some_or e none = raise e
  some_or e (some a) = pure a

infixl 5 ◌>>=◌ ◌>>◌
unfoldable pub ◌>>=◌ : {S E A B : Type 0} → Action S E A → (A → Action S E B) → Action S E B
m >>= f = λ s. and_then (m s) (λ t a. f a t)

unfoldable pub ◌>>◌ : {S E A B : Type 0} → Action S E A → Action S E B → Action S E B
unfolding ◌>>=◌
m >> n = m >>= (λ a. n)

abbrev pub map_err : {E F A : Type 0} → (E → F) → Result E A → Result F A
map_err from (ok a) = ok a
map_err from (err e) = err (from e)

-- `method(…).map_err(from)`, and what `?` does with `From`.
unfoldable pub action_map_err : {S E F A : Type 0} → (E → F) → Action S E A → Action S F A
action_map_err from m s = let (t, r) = m s in (t, map_err from r)

-- `match method(…)`: the error is a value.
unfoldable pub attempt : {S E F A : Type 0} → Action S E A → Action S F (Result E A)
attempt m s = let (t, r) = m s in (t, ok r)

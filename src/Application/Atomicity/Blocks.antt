-- ===== src/Application/Atomicity/Blocks.antt =====
-- What a block of calls leaves of the committed state.
use quantalithos_bus.Base.{◌≡◌, refl, ap, Result, ok, err}
use quantalithos_bus.Base.Actions.{Action, lift, ◌>>=◌, ◌>>◌}
use quantalithos_bus.Contracts.Core.{Core}
use quantalithos_bus.Infra.System.{System}
use quantalithos_bus.Application.Atomicity.{
  Atomic, Quiet, Returns, SameTables, SameTables-refl, SameTables-trans, Sure, err_injective,
}

module _ ⦃core : Core⦄ where
  module _ {E A B : Type 0} where
    -- The rest of a block, on the result that the first call gave.
    Quiet-rest :
        (s t : System) (r : Result E A) (f : A → Action System E B)
        → SameTables s.store t.store
        → ((a : A) → Quiet (f a))
        → SameTables s.store (((λ x. (t, r)) >>= f) s).0.store
    unfolding ◌>>=◌
    Quiet-rest s t (ok a) f h k = SameTables-trans s.store t.store (f a t).0.store h ((k a).at t)
    Quiet-rest s t (err e) f h k = h

    pub Quiet-bind :
        (m : Action System E A) (f : A → Action System E B)
        → Quiet m
        → ((a : A) → Quiet (f a))
        → Quiet (m >>= f)
    unfolding ◌>>=◌
    Quiet-bind m f h k = record { at = λ s. let (t, r) = m s in Quiet-rest s t r f (h.at s) k }

    pub Quiet-then :
        (m : Action System E A) (n : Action System E B) → Quiet m → Quiet n → Quiet (m >> n)
    unfolding ◌>>◌
    Quiet-then m n h k = Quiet-bind m (λ a. n) h (λ a. k)

    Atomic-rest :
        (P : E → Type 0) (s t : System) (r : Result E A) (f : A → Action System E B)
        → SameTables s.store t.store
        → ((a : A) → Atomic P (f a))
        → (e : E) → (((λ x. (t, r)) >>= f) s).1 ≡ err e
        → P e
        → SameTables s.store (((λ x. (t, r)) >>= f) s).0.store
    unfolding ◌>>=◌
    Atomic-rest P s t (ok a) f h k e failed p =
        SameTables-trans s.store t.store (f a t).0.store h ((k a).at t e failed p)
    Atomic-rest P s t (err d) f h k e failed p = h

    pub Atomic-bind :
        (P : E → Type 0) (m : Action System E A) (f : A → Action System E B)
        → Quiet m
        → ((a : A) → Atomic P (f a))
        → Atomic P (m >>= f)
    unfolding ◌>>=◌
    Atomic-bind P m f h k = record {
      at = λ s e failed p. let (t, r) = m s in Atomic-rest P s t r f (h.at s) k e failed p;
    }

    -- The rest may use that the result was no error.
    pub Atomic-bind_lift :
        (P : E → Type 0) (r : Result E A) (f : A → Action System E B)
        → ((a : A) → r ≡ ok a → Atomic P (f a))
        → Atomic P (lift r >>= f)
    unfolding ◌>>=◌ lift
    Atomic-bind_lift P (ok a) f k = record { at = (k a refl).at }
    Atomic-bind_lift P (err d) f k = record { at = λ s e failed p. SameTables-refl s.store }

    Atomic-last :
        (P : E → Type 0) (s t : System) (r : Result E A) (f : A → Action System E B)
        → ((e : E) → r ≡ err e → P e → SameTables s.store t.store)
        → ((a : A) → Sure P (f a))
        → (e : E) → (((λ x. (t, r)) >>= f) s).1 ≡ err e
        → P e
        → SameTables s.store (((λ x. (t, r)) >>= f) s).0.store
    unfolding ◌>>=◌
    Atomic-last P s t (ok a) f h k e failed p = elim ((k a).at t e failed p) [ ]
    Atomic-last P s t (err d) f h k e failed p = h e (ap err (err_injective {A = B} d e failed)) p

    -- The call that may write comes last: what follows it does not fail.
    pub Atomic-then-Sure :
        (P : E → Type 0) (m : Action System E A) (f : A → Action System E B)
        → Atomic P m
        → ((a : A) → Sure P (f a))
        → Atomic P (m >>= f)
    unfolding ◌>>=◌
    Atomic-then-Sure P m f h k = record {
      at = λ s e failed p. let (t, r) = m s in Atomic-last P s t r f (h.at s) k e failed p;
    }

    Sure-rest :
        (P : E → Type 0) (s t : System) (r : Result E A) (f : A → Action System E B)
        → ((e : E) → r ≡ err e → ¬ P e)
        → ((a : A) → Sure P (f a))
        → (e : E) → (((λ x. (t, r)) >>= f) s).1 ≡ err e
        → ¬ P e
    unfolding ◌>>=◌
    Sure-rest P s t (ok a) f h k e failed = (k a).at t e failed
    Sure-rest P s t (err d) f h k e failed = h e (ap err (err_injective {A = B} d e failed))

    pub Sure-bind :
        (P : E → Type 0) (m : Action System E A) (f : A → Action System E B)
        → Sure P m
        → ((a : A) → Sure P (f a))
        → Sure P (m >>= f)
    unfolding ◌>>=◌
    Sure-bind P m f h k = record {
      at = λ s e failed. let (t, r) = m s in Sure-rest P s t r f (h.at s) k e failed;
    }

    Atomic-returned :
        (P : E → Type 0) (Q : A → Type 0) (s t : System) (r : Result E A)
        (f : A → Action System E B)
        → ((e : E) → r ≡ err e → P e → SameTables s.store t.store)
        → ((a : A) → r ≡ ok a → Q a)
        → ((a : A) → Q a → Sure P (f a))
        → (e : E) → (((λ x. (t, r)) >>= f) s).1 ≡ err e
        → P e
        → SameTables s.store (((λ x. (t, r)) >>= f) s).0.store
    unfolding ◌>>=◌
    Atomic-returned P Q s t (ok a) f h q k e failed p = elim ((k a (q a refl)).at t e failed p) [ ]
    Atomic-returned P Q s t (err d) f h q k e failed p =
        h e (ap err (err_injective {A = B} d e failed)) p

    -- What follows the call that may write does not fail on what that call returns.
    pub Atomic-then-Returns :
        (P : E → Type 0) (Q : A → Type 0) (m : Action System E A) (f : A → Action System E B)
        → Atomic P m
        → Returns Q m
        → ((a : A) → Q a → Sure P (f a))
        → Atomic P (m >>= f)
    unfolding ◌>>=◌
    Atomic-then-Returns P Q m f h q k = record {
      at = λ s e failed p.
          let (t, r) = m s in Atomic-returned P Q s t r f (h.at s) (q.at s) k e failed p;
    }

    Atomic-rest_returned :
        (P : E → Type 0) (Q : A → Type 0) (s t : System) (r : Result E A)
        (f : A → Action System E B)
        → SameTables s.store t.store
        → ((a : A) → r ≡ ok a → Q a)
        → ((a : A) → Q a → Atomic P (f a))
        → (e : E) → (((λ x. (t, r)) >>= f) s).1 ≡ err e
        → P e
        → SameTables s.store (((λ x. (t, r)) >>= f) s).0.store
    unfolding ◌>>=◌
    Atomic-rest_returned P Q s t (ok a) f h q k e failed p =
        SameTables-trans s.store t.store (f a t).0.store h ((k a (q a refl)).at t e failed p)
    Atomic-rest_returned P Q s t (err d) f h q k e failed p = h

    -- The rest may use what the first call returns.
    pub Atomic-bind-Returns :
        (P : E → Type 0) (Q : A → Type 0) (m : Action System E A) (f : A → Action System E B)
        → Quiet m
        → Returns Q m
        → ((a : A) → Q a → Atomic P (f a))
        → Atomic P (m >>= f)
    unfolding ◌>>=◌
    Atomic-bind-Returns P Q m f h q k = record {
      at = λ s e failed p.
          let (t, r) = m s in Atomic-rest_returned P Q s t r f (h.at s) (q.at s) k e failed p;
    }

    Returns-rest :
        (Q : B → Type 0) (s t : System) (r : Result E A) (f : A → Action System E B)
        → ((a : A) → Returns Q (f a))
        → (b : B) → (((λ x. (t, r)) >>= f) s).1 ≡ ok b
        → Q b
    unfolding ◌>>=◌
    Returns-rest Q s t (ok a) f k b done = (k a).at t b done
    Returns-rest Q s t (err d) f k b done = cc

    pub Returns-bind :
        (Q : B → Type 0) (m : Action System E A) (f : A → Action System E B)
        → ((a : A) → Returns Q (f a))
        → Returns Q (m >>= f)
    unfolding ◌>>=◌
    Returns-bind Q m f k = record {
      at = λ s b done. let (t, r) = m s in Returns-rest Q s t r f k b done;
    }

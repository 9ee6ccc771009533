-- ===== src/Application/Follows.antt =====
-- Actions on the system as calls of the store, with a rule for each way to build an action.
pub mod Calls
pub mod Delivery
pub mod Publication
pub mod Feedback
pub mod RecoveryCalls
pub mod Recovery
use quantalithos_bus.Base.{
  ◌≡◌, refl, ap, ◌∙◌, Bool, true, false, Option, none, some, List, [], ◌∷◌, ◌++◌, ◌&&◌, arith,
  if◌then◌else◌, Result, ok, err,
}
use quantalithos_bus.Base.Actions.{
  Action, pure, raise, lift, gets, some_or, ◌>>=◌, ◌>>◌, action_map_err, attempt,
}
use quantalithos_bus.Contracts.Core.{Core}
use quantalithos_bus.Infra.Store.{MemoryStore}
use quantalithos_bus.Infra.Store.Consistency.{
  StoreCall, begins, stages, commits, rolls_back, appends_audit, store_run,
}
use quantalithos_bus.Infra.System.{System}

module _ ⦃core : Core⦄ where
  -- `t` is what calls of the store leave of `s`.
  pub record Runs (s t : MemoryStore) : Type 0 where
    pub calls : List StoreCall
    pub ran : store_run s calls ≡ t

  pub Runs-refl : (s : MemoryStore) → Runs s s
  unfolding store_run
  Runs-refl s = record { calls = []; ran = refl }

  pub Runs-call : (s : MemoryStore) (call : StoreCall) → Runs s (store_run s (call ∷ []))
  Runs-call s call = record { calls = call ∷ []; ran = refl }

  store_run-append :
      (s : MemoryStore) (calls later : List StoreCall)
      → store_run s (calls ++ later) ≡ store_run (store_run s calls) later
  unfolding store_run
  store_run-append s [] later = refl
  store_run-append s (call ∷ calls) later = store_run-append (store_run s (call ∷ [])) calls later

  pub Runs-trans : (s t u : MemoryStore) → Runs s t → Runs t u → Runs s u
  Runs-trans s t u h k = record {
    calls = h.calls ++ k.calls;
    ran = store_run-append s h.calls k.calls ∙ ap (λ x. store_run x k.calls) h.ran ∙ k.ran;
  }

  -- Whether `m` succeeds or fails, it changes the store by calls of the store alone.
  pub record Follows {E A : Type 0} (m : Action System E A) : Type 0 where
    pub at : (s : System) → Runs s.store (m s).0.store

  module _ {E A : Type 0} where
    pub Follows-pure : (a : A) → Follows {E = E} (pure a)
    unfolding pure
    Follows-pure a = record { at = λ s. Runs-refl s.store }

    pub Follows-raise : (e : E) → Follows {A = A} (raise e)
    unfolding raise
    Follows-raise e = record { at = λ s. Runs-refl s.store }

    pub Follows-lift : (r : Result E A) → Follows (lift r)
    unfolding lift
    Follows-lift r = record { at = λ s. Runs-refl s.store }

    pub Follows-gets : (f : System → A) → Follows {E = E} (gets f)
    unfolding gets
    Follows-gets f = record { at = λ s. Runs-refl s.store }

    pub Follows-some_or : (e : E) (o : Option A) → Follows (some_or e o)
    unfolding some_or
    Follows-some_or e none = Follows-raise e
    Follows-some_or e (some a) = Follows-pure a

    pub Follows-if :
        (b : Bool) (m n : Action System E A) → Follows m → Follows n → Follows (if b then m else n)
    Follows-if true m n h k = h
    Follows-if false m n h k = k

  pub Follows-map_err :
      {E F A : Type 0} (from : E → F) (m : Action System E A)
      → Follows m
      → Follows (action_map_err from m)
  unfolding action_map_err
  Follows-map_err from m h = record { at = h.at }

  pub Follows-attempt :
      {E F A : Type 0} (m : Action System E A) → Follows m → Follows {E = F} (attempt m)
  unfolding attempt
  Follows-attempt m h = record { at = h.at }

  module _ {E A B : Type 0} where
    -- The rest of a block, on the result that the first call gave.
    Follows-rest :
        (s t : System) (r : Result E A) (f : A → Action System E B)
        → Runs s.store t.store
        → ((a : A) → Follows (f a))
        → Runs s.store (((λ x. (t, r)) >>= f) s).0.store
    unfolding ◌>>=◌
    Follows-rest s t (ok a) f h k = Runs-trans s.store t.store (f a t).0.store h ((k a).at t)
    Follows-rest s t (err e) f h k = h

    pub Follows-bind :
        (m : Action System E A) (f : A → Action System E B)
        → Follows m
        → ((a : A) → Follows (f a))
        → Follows (m >>= f)
    unfolding ◌>>=◌
    Follows-bind m f h k = record { at = λ s. let (t, r) = m s in Follows-rest s t r f (h.at s) k }

    pub Follows-then :
        (m : Action System E A) (n : Action System E B) → Follows m → Follows n → Follows (m >> n)
    unfolding ◌>>◌
    Follows-then m n h k = Follows-bind m (λ a. n) h (λ a. k)

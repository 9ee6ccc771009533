-- ===== src/Application/Triples.antt =====
-- What an action that succeeds has done: a precondition, the action, and a condition on its result and the state after
-- it, with a rule for each way to build an action.
use quantalithos_bus.Base.{
  ◌∙◌, ◌≡◌, refl, sym, ap, subst, Bool, true, false, Option, none, some, Result, ok, err,
  if◌then◌else◌,
}
use quantalithos_bus.Base.Actions.{
  Action, pure, raise, lift, gets, some_or, ◌>>=◌, action_map_err, attempt, map_err,
}
use quantalithos_bus.Contracts.Core.{Core}
use quantalithos_bus.Application.Ports.{UnitOfWorkHandle, BusRecordKind}
use quantalithos_bus.Application.Errors.{ApplicationError}
use quantalithos_bus.Infra.Store.{MemoryStore}
use quantalithos_bus.Infra.System.{System, next_record_id}
use quantalithos_bus.Application.Services.{settle, or_rollback, clock_now, new_record_id}
use quantalithos_bus.Application.Atomicity.{ok_injective}
use quantalithos_bus.Application.Atomicity.Calls.{Returns-rollback_with}

module _ ⦃core : Core⦄ where
  pub record Ensures {E A : Type 0} (P : MemoryStore → Type 0) (m : Action System E A)
      (Q : A → MemoryStore → Type 0) : Type 0 where
    pub at : (s : System) → P s.store → (a : A) → (m s).1 ≡ ok a → Q a (m s).0.store

  module _ {E A B : Type 0} where
    Ensures-rest :
        (Q : A → MemoryStore → Type 0) (R : B → MemoryStore → Type 0) (s t : System)
        (r : Result E A) (f : A → Action System E B)
        → ((a : A) → r ≡ ok a → Q a t.store)
        → ((a : A) → Ensures (Q a) (f a) R)
        → (b : B) → (((λ x. (t, r)) >>= f) s).1 ≡ ok b
        → R b (((λ x. (t, r)) >>= f) s).0.store
    unfolding ◌>>=◌
    Ensures-rest Q R s t (ok a) f h k b done = (k a).at t (h a refl) b done
    Ensures-rest Q R s t (err e) f h k b done = cc

    pub Ensures-bind :
        (P : MemoryStore → Type 0) (Q : A → MemoryStore → Type 0) (R : B → MemoryStore → Type 0)
        (m : Action System E A) (f : A → Action System E B)
        → Ensures P m Q
        → ((a : A) → Ensures (Q a) (f a) R)
        → Ensures P (m >>= f) R
    unfolding ◌>>=◌
    Ensures-bind P Q R m f h k = record {
      at = λ s p b done. let (t, r) = m s in Ensures-rest Q R s t r f (h.at s p) k b done;
    }

    -- A call that keeps the condition.
    pub Ensures-next :
        (P : MemoryStore → Type 0) (R : B → MemoryStore → Type 0) (m : Action System E A)
        (f : A → Action System E B)
        → Ensures P m (λ a. P)
        → ((a : A) → Ensures P (f a) R)
        → Ensures P (m >>= f) R
    Ensures-next P R m f h k = Ensures-bind P (λ a. P) R m f h k

    -- A rest that needs nothing of what comes before it.
    pub Ensures-after :
        (P : MemoryStore → Type 0) (R : B → MemoryStore → Type 0) (m : Action System E A)
        (f : A → Action System E B)
        → ((a : A) → Ensures (λ s. Unit {0}) (f a) R)
        → Ensures P (m >>= f) R
    Ensures-after P R m f k =
        Ensures-bind P (λ a s. Unit {0}) R m f (record { at = λ s p a done. tt }) k

  -- The rest may use that the result was no error.
  pub Ensures-bind_lift :
      {E A B : Type 0} (P : MemoryStore → Type 0) (R : B → MemoryStore → Type 0) (r : Result E A)
      (f : A → Action System E B)
      → ((a : A) → r ≡ ok a → Ensures P (f a) R)
      → Ensures P (lift r >>= f) R
  unfolding ◌>>=◌ lift
  Ensures-bind_lift P R (ok a) f k = record { at = (k a refl).at }
  Ensures-bind_lift P R (err e) f k = record { at = λ s p b done. cc }

  pub Ensures-bind_some_or :
      {E A B : Type 0} (P : MemoryStore → Type 0) (R : B → MemoryStore → Type 0) (e : E)
      (o : Option A) (f : A → Action System E B)
      → ((a : A) → o ≡ some a → Ensures P (f a) R)
      → Ensures P (some_or e o >>= f) R
  unfolding ◌>>=◌ some_or pure raise
  Ensures-bind_some_or P R e (some a) f k = record { at = (k a refl).at }
  Ensures-bind_some_or P R e none f k = record { at = λ s p b done. cc }

  module _ {E A : Type 0} (P : MemoryStore → Type 0) where
    pub Ensures-if :
        (Q : A → MemoryStore → Type 0) (b : Bool) (m n : Action System E A)
        → (b ≡ true → Ensures P m Q)
        → (b ≡ false → Ensures P n Q)
        → Ensures P (if b then m else n) Q
    Ensures-if Q true m n h k = h refl
    Ensures-if Q false m n h k = k refl

    -- An action that leaves the store alone.
    pub Ensures-still :
        (m : Action System E A) → ((s : System) → (m s).0.store ≡ s.store) → Ensures P m (λ a. P)
    Ensures-still m h = record { at = λ s p a done. subst P (sym (h s)) p }

    pub Ensures-pure :
        (Q : A → MemoryStore → Type 0) (a : A)
        → ((s : MemoryStore) → P s → Q a s)
        → Ensures {E = E} P (pure a) Q
    unfolding pure
    Ensures-pure Q a h = record {
      at = λ s p b done. subst (λ c. Q c s.store) (ok_injective {E = E} a b done) (h s.store p);
    }

    pub Ensures-raise : (Q : A → MemoryStore → Type 0) (e : E) → Ensures P (raise e) Q
    unfolding raise
    Ensures-raise Q e = record { at = λ s p a done. cc }

    pub Ensures-weaken_result :
        (Q Q' : A → MemoryStore → Type 0) (m : Action System E A)
        → ((a : A) (s : MemoryStore) → Q a s → Q' a s)
        → Ensures P m Q
        → Ensures P m Q'
    Ensures-weaken_result Q Q' m h k = record {
      at = λ s p a done. h a (m s).0.store (k.at s p a done);
    }

    pub Ensures-weaken :
        (P' : MemoryStore → Type 0) (Q : A → MemoryStore → Type 0) (m : Action System E A)
        → ((s : MemoryStore) → P s → P' s)
        → Ensures P' m Q
        → Ensures P m Q
    Ensures-weaken P' Q m h k = record { at = λ s p. k.at s (h s.store p) }

  pub mapped :
      {E F A : Type 0} (from : E → F) (r : Result E A) (a : A) → map_err from r ≡ ok a → r ≡ ok a
  mapped {E} {F} from (ok b) a h = ap ok (ok_injective {E = F} b a h)
  mapped from (err e) a h = cc

  pub Ensures-map_err :
      {E F A : Type 0} (P : MemoryStore → Type 0) (Q : A → MemoryStore → Type 0) (from : E → F)
      (m : Action System E A)
      → Ensures P m Q
      → Ensures P (action_map_err from m) Q
  unfolding action_map_err
  Ensures-map_err P Q from m h = record {
    at = λ s p a done. let (t, r) = m s in h.at s p a (mapped from r a done);
  }

  Ensures-attempt :
      {E F A : Type 0} (P : MemoryStore → Type 0) (Q : A → MemoryStore → Type 0)
      (m : Action System E A)
      → Ensures P m Q
      → Ensures {E = F} P (attempt m) (λ r s. (a : A) → r ≡ ok a → Q a s)
  unfolding attempt
  Ensures-attempt {E} {F} {A} P Q m h = record {
    at = λ s p r done a eq. h.at s p a (ok_injective {E = F} (m s).1 r done ∙ eq);
  }

  Ensures-settle :
      {E A : Type 0} (h : UnitOfWorkHandle) (from : E → ApplicationError) (r : Result E A)
      (Q : A → MemoryStore → Type 0)
      → Ensures (λ s. (a : A) → r ≡ ok a → Q a s) (settle h from r) Q
  unfolding settle
  Ensures-settle h from (ok a) Q =
      Ensures-pure (λ s. (b : _) → ok a ≡ ok b → Q b s) Q a (λ s p. p a refl)
  Ensures-settle {A = A} h from (err e) Q = record {
    at = λ s p a done. elim ((Returns-rollback_with {A = A} (λ b. ⊥) h (from e)).at s a done) [ ];
  }

  pub Ensures-or_rollback :
      {E A : Type 0} (P : MemoryStore → Type 0) (Q : A → MemoryStore → Type 0)
      (h : UnitOfWorkHandle) (from : E → ApplicationError) (m : Action System E A)
      → Ensures P m Q
      → Ensures P (or_rollback h from m) Q
  unfolding or_rollback
  Ensures-or_rollback {A = A} P Q h from m k =
      Ensures-bind P (λ r s. (a : A) → r ≡ ok a → Q a s) Q (attempt m) (settle h from)
        (Ensures-attempt P Q m k) (λ r. Ensures-settle h from r Q)

  pub Ensures-clock_now : (P : MemoryStore → Type 0) → Ensures P clock_now (λ a. P)
  unfolding clock_now gets
  Ensures-clock_now P = Ensures-still P clock_now (λ s. refl)

  pub Ensures-new_record_id :
      (P : MemoryStore → Type 0) (k : BusRecordKind) → Ensures P (new_record_id k) (λ a. P)
  unfolding new_record_id next_record_id action_map_err
  Ensures-new_record_id P BusRecordKind.audit_entry =
      Ensures-still P (new_record_id BusRecordKind.audit_entry) (λ s. refl)
  Ensures-new_record_id P BusRecordKind.idempotency_anchor =
      Ensures-still P (new_record_id BusRecordKind.idempotency_anchor) (λ s. refl)

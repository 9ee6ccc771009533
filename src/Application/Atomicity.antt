-- ===== src/Application/Atomicity.antt =====
-- What actions on the system leave of the committed state, with a rule for each way to build an action.
pub mod Blocks
pub mod Calls
pub mod Delivery
pub mod Publication
pub mod Feedback
pub mod RecoveryCalls
pub mod Recovery
use quantalithos_bus.Base.{
  sym, subst, ◌≡◌, refl, ap, ◌∙◌, Bool, true, false, Option, none, some, if◌then◌else◌, Result, ok,
  err,
}
use quantalithos_bus.Base.Actions.{
  Action, pure, raise, lift, gets, some_or, ◌>>=◌, ◌>>◌, action_map_err, attempt, map_err,
}
use quantalithos_bus.Contracts.Core.{Core}
use quantalithos_bus.Infra.Store.{MemoryStore}
use quantalithos_bus.Infra.System.{System}

module _ ⦃core : Core⦄ where
  -- From `s` to `t` all tables stay; only transactions are opened, written or closed.
  pub record SameTables (s t : MemoryStore) : Type 0 where
    pub same :
        record t { transactions = s.transactions; next_transaction_id = s.next_transaction_id } ≡ s

  pub SameTables-refl : (s : MemoryStore) → SameTables s s
  SameTables-refl s = record { same = refl }

  pub SameTables-trans : (s t u : MemoryStore) → SameTables s t → SameTables t u → SameTables s u
  SameTables-trans s t u h k = record {
    same =
        ap {A = MemoryStore}
          (λ x. record x {
            transactions = s.transactions;
            next_transaction_id = s.next_transaction_id;
          })
          k.same
        ∙ h.same;
  }

  -- `m` changes no table.
  pub record Quiet {E A : Type 0} (m : Action System E A) : Type 0 where
    pub at : (s : System) → SameTables s.store (m s).0.store

  -- `m` changes no table when it fails with an error of `P`.
  pub record Atomic {E A : Type 0} (P : E → Type 0) (m : Action System E A) : Type 0 where
    pub at : (s : System) (e : E) → (m s).1 ≡ err e → P e → SameTables s.store (m s).0.store

  -- `m` never fails with an error of `P`.
  pub record Sure {E A : Type 0} (P : E → Type 0) (m : Action System E A) : Type 0 where
    pub at : (s : System) (e : E) → (m s).1 ≡ err e → ¬ P e

  error_of : {E A : Type 0} → E → Result E A → E
  error_of d (ok a) = d
  error_of d (err e) = e

  value_of : {E A : Type 0} → A → Result E A → A
  value_of d (ok a) = a
  value_of d (err e) = d

  pub err_injective : {E A : Type 0} (d e : E) → ◌≡◌ {A = Result E A} (err d) (err e) → d ≡ e
  unfolding error_of
  err_injective {A = A} d e h = ap (error_of {A = A} d) h

  -- What `m` returns, satisfies `Q`.
  pub record Returns {E A : Type 0} (Q : A → Type 0) (m : Action System E A) : Type 0 where
    pub at : (s : System) (a : A) → (m s).1 ≡ ok a → Q a

  module _ {E A : Type 0} where
    pub Quiet-pure : (a : A) → Quiet {E = E} (pure a)
    unfolding pure
    Quiet-pure a = record { at = λ s. SameTables-refl s.store }

    pub Quiet-raise : (e : E) → Quiet {A = A} (raise e)
    unfolding raise
    Quiet-raise e = record { at = λ s. SameTables-refl s.store }

    pub Quiet-lift : (r : Result E A) → Quiet (lift r)
    unfolding lift
    Quiet-lift r = record { at = λ s. SameTables-refl s.store }

    pub Quiet-gets : (f : System → A) → Quiet {E = E} (gets f)
    unfolding gets
    Quiet-gets f = record { at = λ s. SameTables-refl s.store }

    pub Quiet-some_or : (e : E) (o : Option A) → Quiet (some_or e o)
    unfolding some_or
    Quiet-some_or e none = Quiet-raise e
    Quiet-some_or e (some a) = Quiet-pure a

    pub Quiet-if :
        (b : Bool) (m n : Action System E A) → Quiet m → Quiet n → Quiet (if b then m else n)
    Quiet-if true m n h k = h
    Quiet-if false m n h k = k

    pub Atomic-Quiet : (P : E → Type 0) (m : Action System E A) → Quiet m → Atomic P m
    Atomic-Quiet P m h = record { at = λ s e failed p. h.at s }

    pub Atomic-if :
        (P : E → Type 0) (b : Bool) (m n : Action System E A)
        → Atomic P m
        → Atomic P n
        → Atomic P (if b then m else n)
    Atomic-if P true m n h k = h
    Atomic-if P false m n h k = k

    pub Sure-pure : (P : E → Type 0) (a : A) → Sure P (pure a)
    unfolding pure
    Sure-pure P a = record { at = λ s e failed p. cc }

    pub Sure-raise : (P : E → Type 0) (e : E) → ¬ P e → Sure {A = A} P (raise e)
    unfolding raise
    Sure-raise P e h = record {
      at = λ s e' failed p. h (subst P (sym (err_injective {A = A} e e' failed)) p);
    }

    -- What never fails needs no care.
    pub Atomic-Sure : (P : E → Type 0) (m : Action System E A) → Sure P m → Atomic P m
    Atomic-Sure P m h = record { at = λ s e failed p. elim (h.at s e failed p) [ ] }

    pub Sure-lift : (P : E → Type 0) (a : A) → Sure P (lift (ok a))
    unfolding lift
    Sure-lift P a = record { at = λ s e failed p. cc }

  pub Quiet-map_err :
      {E F A : Type 0} (from : E → F) (m : Action System E A)
      → Quiet m
      → Quiet (action_map_err from m)
  unfolding action_map_err
  Quiet-map_err from m h = record { at = h.at }

  pub Quiet-attempt : {E F A : Type 0} (m : Action System E A) → Quiet m → Quiet {E = F} (attempt m)
  unfolding attempt
  Quiet-attempt m h = record { at = h.at }

  pub Sure-attempt : {E F A : Type 0} (P : F → Type 0) (m : Action System E A) → Sure P (attempt m)
  unfolding attempt
  Sure-attempt P m = record { at = λ s e failed p. cc }

  pub ok_injective : {E A : Type 0} (a b : A) → ◌≡◌ {A = Result E A} (ok a) (ok b) → a ≡ b
  unfolding value_of
  ok_injective {E = E} a b h = ap (value_of {E = E} a) h

  pub Returns-pure : {E A : Type 0} (Q : A → Type 0) (a : A) → Q a → Returns {E = E} Q (pure a)
  unfolding pure
  Returns-pure {E = E} Q a q = record { at = λ s b done. subst Q (ok_injective {E = E} a b done) q }

  pub Returns-raise : {E A : Type 0} (Q : A → Type 0) (e : E) → Returns Q (raise e)
  unfolding raise
  Returns-raise Q e = record { at = λ s b done. cc }

-- ===== src/Domain/Delivery/Numbering.antt =====
-- The numbers of a delivery's attempts, and the search for an attempt by its id.
use quantalithos_bus.Base.{
  ℕ, ◌+◌, ◌%◌, ◌<◌, ◌≡◌, refl, sym, ap, subst, ◌∙◌, ◌⊎◌, inl, inr, none, some, List, [], ◌∷◌, ◌++◌,
  arith, Bool-cases, length,
}
use quantalithos_bus.Base.Text.{codes, text_eq, show}
use quantalithos_bus.Contracts.Core.{Core}
use quantalithos_bus.Contracts.Metadata.{
  DeliveryAttemptId, DeliveryId, AttemptNo, u32_mod, sanitize,
}
use quantalithos_bus.Base.Text.Laws.{text_eq_iff}
use quantalithos_bus.Base.Text.Decimal.{show-injective, cancel_prefix}
use quantalithos_bus.Domain.Delivery.Attempt.{
  DeliveryAttempt, find_attempt, replace_attempt, attempt_id_of,
}
use quantalithos_bus.Domain.Delivery.{DeliveryRecord}
use quantalithos_bus.Domain.Delivery.Invariant.{Inv}
use quantalithos_bus.Domain.Delivery.Sequence.{Numbered}

pub attempt_id_of-injective :
    (d : DeliveryId) (m n : AttemptNo) → attempt_id_of d m ≡ attempt_id_of d n → m ≡ n
unfolding attempt_id_of
attempt_id_of-injective d m n h =
    show-injective m n
      (cancel_prefix (codes "attempt_" ++ sanitize d ++ codes "_") (show m) (show n) h)

module _ ⦃core : Core⦄ where
  -- A number past the ones in use is not found.
  pub find-fresh :
      (d : DeliveryId) (k n : ℕ) (xs : List DeliveryAttempt)
      → Numbered d k xs
      → k + length xs < n
      → n < u32_mod
      → find_attempt (attempt_id_of d n) xs ≡ none
  unfolding find_attempt
  find-fresh d k n [] v h l = refl
  find-fresh d k n (a ∷ xs) v h l = elim (Bool-cases (text_eq a.attempt_id (attempt_id_of d n))) [
    | inl hit ↦ absurd (
        clash (
          attempt_id_of-injective d ((k + 1) % u32_mod) n
            (sym v.0 ∙ (text_eq_iff a.attempt_id (attempt_id_of d n)).0 hit)))
    | inr miss ↦ rw miss (find-fresh d (k + 1) n xs v.2 (omega arith) l)
  ]
    where
      clash : (k + 1) % u32_mod ≡ n → ⊥
      clash e = omega arith

  pub find-snoc :
      (id : DeliveryAttemptId) (xs : List DeliveryAttempt) (a : DeliveryAttempt)
      → find_attempt id xs ≡ none
      → a.attempt_id ≡ id
      → find_attempt id (xs ++ a ∷ []) ≡ some a
  unfolding find_attempt
  find-snoc id [] a h e = ground (arith, text_eq_iff a.attempt_id id)
  find-snoc id (b ∷ xs) a h e = ground (arith, find-snoc id xs a)

  pub find-replace :
      (id : DeliveryAttemptId) (xs : List DeliveryAttempt) (a b : DeliveryAttempt)
      → find_attempt id xs ≡ some a
      → b.attempt_id ≡ id
      → find_attempt id (replace_attempt id b xs) ≡ some b
  unfolding find_attempt replace_attempt
  find-replace id [] a b h e = cc
  find-replace id (c ∷ xs) a b h e =
      ground (arith, text_eq_iff b.attempt_id id, find-replace id xs a b)

  -- The `i`-th attempt has number `i + 1`.
  abbrev pub HasId : DeliveryAttemptId → List DeliveryAttempt → Type 0
  HasId id [] = ⊥
  HasId id (a ∷ xs) = (a.attempt_id ≡ id) ⊎ HasId id xs

  abbrev pub Distinct : List DeliveryAttempt → Type 0
  Distinct [] = Unit
  Distinct (a ∷ xs) = (¬ HasId a.attempt_id xs) × Distinct xs

  HasId-number :
      (d : DeliveryId) (k m : ℕ) (xs : List DeliveryAttempt)
      → Numbered d k xs
      → k + length xs < u32_mod
      → m < k + 1
      → HasId (attempt_id_of d m) xs
      → ⊥
  HasId-number d k m [] v l h p = p
  HasId-number d k m (a ∷ xs) v l h (inl e) =
      clash (attempt_id_of-injective d ((k + 1) % u32_mod) m (sym v.0 ∙ e))
    where
      clash : (k + 1) % u32_mod ≡ m → ⊥
      clash e = omega arith
  HasId-number d k m (a ∷ xs) v l h (inr p) =
      HasId-number d (k + 1) m xs v.2 (omega arith) (omega arith) p

  Numbered-Distinct :
      (d : DeliveryId) (k : ℕ) (xs : List DeliveryAttempt)
      → Numbered d k xs
      → k + length xs < u32_mod
      → Distinct xs
  Numbered-Distinct d k [] v l = tt
  Numbered-Distinct d k (a ∷ xs) v l = (
    λ p.
        HasId-number d (k + 1) (k + 1) xs v.2 (omega arith) (omega arith)
          (subst (λ id. HasId id xs) (v.0 ∙ ap (attempt_id_of d) small) p),
    Numbered-Distinct d (k + 1) xs v.2 (omega arith),
  )
    where
      small : (k + 1) % u32_mod ≡ k + 1
      small = omega arith

  -- Fewer than 2^32 attempts have pairwise different ids.
  pub Inv-Distinct :
      (d : DeliveryRecord) → Inv d → length d.attempts < u32_mod → Distinct d.attempts
  Inv-Distinct d v l = Numbered-Distinct d.delivery_id 0 d.attempts v.numbered (omega arith)

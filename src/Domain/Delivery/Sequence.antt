-- ===== src/Domain/Delivery/Sequence.antt =====
-- Attempts in the order of their numbers: appending one, and overwriting one by its id.
use quantalithos_bus.Base.{
  ℕ, ◌+◌, ◌%◌, ◌≡◌, refl, sym, ap, ◌∙◌, inl, inr, Option, none, some, List, [], ◌∷◌, ◌++◌, arith,
  Bool-cases, length,
}
use quantalithos_bus.Base.Text.{text_eq}
use quantalithos_bus.Contracts.Core.{Core}
use quantalithos_bus.Contracts.Metadata.{DeliveryAttemptId, DeliveryId, u32_mod}
use quantalithos_bus.Base.Text.Laws.{text_eq_iff}
use quantalithos_bus.Domain.Delivery.Attempt.{
  DeliveryAttempt, find_attempt, replace_attempt, attempt_id_of,
}

module _ ⦃core : Core⦄ where
  -- The attempts of delivery `d` after the first `k` bear the numbers from `k + 1`.
  abbrev pub Numbered : DeliveryId → ℕ → List DeliveryAttempt → Type 0
  Numbered d k [] = Unit
  Numbered d k (a ∷ xs) =
      (a.attempt_id ≡ attempt_id_of d ((k + 1) % u32_mod))
      × (a.delivery_id ≡ d)
      × Numbered d (k + 1) xs

  abbrev pub last_id : List DeliveryAttempt → Option DeliveryAttemptId
  last_id [] = none
  last_id (a ∷ []) = some a.attempt_id
  last_id (a ∷ b ∷ xs) = last_id (b ∷ xs)

  pub last_id-append :
      (xs : List DeliveryAttempt) (a : DeliveryAttempt) → last_id (xs ++ a ∷ []) ≡ some a.attempt_id
  last_id-append [] a = refl
  last_id-append (b ∷ []) a = refl
  last_id-append (b ∷ c ∷ xs) a = last_id-append (c ∷ xs) a

  pub Numbered-append :
      (d : DeliveryId) (k : ℕ) (xs : List DeliveryAttempt) (a : DeliveryAttempt)
      → Numbered d k xs
      → a.attempt_id ≡ attempt_id_of d ((k + length xs + 1) % u32_mod)
      → a.delivery_id ≡ d
      → Numbered d k (xs ++ a ∷ [])
  Numbered-append d k [] a n e f = (ground arith, f, tt)
  Numbered-append d k (b ∷ xs) a n e f =
      let same : k + length (b ∷ xs) + 1 ≡ k + 1 + length xs + 1 = omega arith in
      (
        n.0,
        n.1,
        Numbered-append d (k + 1) xs a n.2 (e ∙ ap (λ m. attempt_id_of d (m % u32_mod)) same) f,
      )

  -- An attempt is overwritten by one with its own id, for the same delivery.
  pub Numbered-replace :
      (d : DeliveryId) (k : ℕ) (id : DeliveryAttemptId) (xs : List DeliveryAttempt)
      (b : DeliveryAttempt)
      → b.attempt_id ≡ id
      → b.delivery_id ≡ d
      → Numbered d k xs
      → Numbered d k (replace_attempt id b xs)
  unfolding replace_attempt
  Numbered-replace d k id [] b e f n = n
  Numbered-replace d k id (a ∷ xs) b e f n = elim (Bool-cases (text_eq a.attempt_id id)) [
    | inl hit ↦ rw hit (e ∙ sym ((text_eq_iff a.attempt_id id).0 hit) ∙ n.0, f, n.2)
    | inr miss ↦ rw miss (n.0, n.1, Numbered-replace d (k + 1) id xs b e f n.2)
  ]

  pub length-replace :
      (id : DeliveryAttemptId) (xs : List DeliveryAttempt) (b : DeliveryAttempt)
      → length (replace_attempt id b xs) ≡ length xs
  unfolding replace_attempt
  length-replace id [] b = refl
  length-replace id (a ∷ xs) b = ground (arith, length-replace id xs b)

  pub last_id-replace :
      (id : DeliveryAttemptId) (xs : List DeliveryAttempt) (b : DeliveryAttempt)
      → b.attempt_id ≡ id
      → last_id (replace_attempt id b xs) ≡ last_id xs
  unfolding replace_attempt
  last_id-replace id [] b e = refl
  last_id-replace id (a ∷ []) b e = ground (arith, text_eq_iff a.attempt_id id)
  last_id-replace id (a ∷ c ∷ xs) b e =
      ground (arith, text_eq_iff a.attempt_id id, last_id-replace id (c ∷ xs) b)

  pub find-id :
      (id : DeliveryAttemptId) (xs : List DeliveryAttempt) {a : DeliveryAttempt}
      → find_attempt id xs ≡ some a
      → a.attempt_id ≡ id
  unfolding find_attempt
  find-id id [] h = cc
  find-id id (b ∷ xs) {a} h = ground (arith, text_eq_iff b.attempt_id id, find-id id xs {a = a})

  pub find-delivery :
      (d : DeliveryId) (k : ℕ) (id : DeliveryAttemptId) (xs : List DeliveryAttempt)
      {a : DeliveryAttempt}
      → Numbered d k xs
      → find_attempt id xs ≡ some a
      → a.delivery_id ≡ d
  unfolding find_attempt
  find-delivery d k id [] n h = cc
  find-delivery d k id (b ∷ xs) {a} n h = ground (arith, find-delivery d (k + 1) id xs {a = a} n.2)

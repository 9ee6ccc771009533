-- ===== src/Domain/Recovery/Budget.antt =====
-- How many attempts a retry plan grants.
use quantalithos_bus.Base.{
  ℕ, suc, min, ◌+◌, ◌-◌, ◌≤◌, ◌<◌, ◌≡◌, refl, true, ◌↔◌, ◌==◌, Bool-cases, inl, inr, ap, ◌∙◌, false,
  List, [], ◌∷◌, arith, length, Result, ok, err,
}
use quantalithos_bus.Base.Text.{is_blank}
use quantalithos_bus.Contracts.Core.{Core}
use quantalithos_bus.Contracts.Status.{DeliveryStatus, RetryPlanStatus, retry_eq}
use quantalithos_bus.Contracts.Metadata.{
  DeliveryAttemptId, FailureReason, RecoveryReason, RetryPolicyRef, AttemptLimit,
  BackendDeliveryResult,
}
use quantalithos_bus.Domain.Errors.{DomainError}
use quantalithos_bus.Base.Text.Laws.{text_eq_iff, text_eq_refl}
use quantalithos_bus.Domain.Delivery.{DeliveryRecord}
use quantalithos_bus.Domain.Recovery.Retry.{
  RetryPlan, create, mark_attempted, mark_exhausted, cancel, set_version,
}
use quantalithos_bus.Domain.Recovery.Policy.{can_retry}

-- `result.is_ok()`, as a number.
abbrev pub successes {ℓ} : {A : Type ℓ} → Result DomainError A → ℕ
successes (ok a) = 1
successes (err e) = 0

module _ ⦃core : Core⦄ where
  open core use {ActorContext, Timestamp, Version}

  pub data PlanCall : Type 0 where
    attempts : DeliveryAttemptId → BackendDeliveryResult → PlanCall
    exhausts : ActorContext → PlanCall
    cancels : ActorContext → RecoveryReason → PlanCall
    sets_version : Version → PlanCall

  -- The plan after the call, and the attempts that the call granted.
  unfoldable pub plan_step : RetryPlan → PlanCall → RetryPlan × ℕ
  plan_step p (attempts id r) = ((mark_attempted p id r).0, successes (mark_attempted p id r).1)
  plan_step p (exhausts a) = ((mark_exhausted p a).0, 0)
  plan_step p (cancels a reason) = ((cancel p a reason).0, 0)
  plan_step p (sets_version v) = (set_version p v, 0)

  -- The plan after a history of calls, and the attempts granted on the way.
  unfoldable pub plan_run : RetryPlan → List PlanCall → RetryPlan × ℕ
  unfolding plan_step
  plan_run p [] = (p, 0)
  plan_run p (c ∷ cs) =
      let (q, n) = plan_step p c in let (final, m) = plan_run q cs in (final, n + m)

  plan_step-spends :
      (p : RetryPlan) (c : PlanCall)
      → (plan_step p c).0.remaining_attempts + (plan_step p c).1 ≡ p.remaining_attempts
  unfolding plan_step mark_attempted mark_exhausted cancel set_version
  plan_step-spends p (attempts id r) = ground arith
  plan_step-spends p (exhausts a) = ground arith
  plan_step-spends p (cancels a reason) = ground arith
  plan_step-spends p (sets_version v) = ground arith

  -- Every granted attempt is taken from those that remain: along any history of calls, the attempts
  -- granted and those that remain at the end make up those that remained at the start.
  pub plan_run-spends :
      (p : RetryPlan) (cs : List PlanCall)
      → (plan_run p cs).0.remaining_attempts + (plan_run p cs).1 ≡ p.remaining_attempts
  unfolding plan_run
  plan_run-spends p [] = omega arith
  plan_run-spends p (c ∷ cs) =
      omega (arith, plan_step-spends p c, plan_run-spends (plan_step p c).0 cs)

  -- A created plan grants no more attempts than its limit, whatever is called on it.
  pub create-grants_at_most :
      (d : DeliveryRecord) (reason : FailureReason) (policy : RetryPolicyRef) (limit : AttemptLimit)
      (now : Timestamp) {p : RetryPlan} (cs : List PlanCall)
      → create d reason policy limit now ≡ ok p
      → (plan_run p cs).1 ≤ limit
  unfolding create
  create-grants_at_most d reason policy limit now {p} cs h =
      let e : p.remaining_attempts ≡ limit = ground arith in omega (arith, plan_run-spends p cs)

  -- The attempts that a list of dispatches is granted.
  abbrev pub dispatches : List (DeliveryAttemptId × BackendDeliveryResult) → List PlanCall
  dispatches [] = []
  dispatches ((id, r) ∷ xs) = attempts id r ∷ dispatches xs

  abbrev pub AllNamed : List (DeliveryAttemptId × BackendDeliveryResult) → Type 0
  AllNamed [] = Unit
  AllNamed ((id, r) ∷ xs) = (is_blank id ≡ false) × AllNamed xs

  -- The plan with other attempts left.
  abbrev left : RetryPlan → ℕ → RetryPlan
  left p n = record p { remaining_attempts = n }

  -- A scheduled plan grants an attempt with a name while one remains, and spends it; no other field changes.
  attempted :
      (p : RetryPlan) (id : DeliveryAttemptId) (r : BackendDeliveryResult)
      → p.status ≡ RetryPlanStatus.scheduled
      → is_blank id ≡ false
      → ((plan_step p (attempts id r)).0 ≡ left p (p.remaining_attempts - 1))
        × ((plan_step p (attempts id r)).1 ≡ min 1 p.remaining_attempts)
  unfolding plan_step mark_attempted
  attempted p id r s b =
      let open_ : retry_eq p.status RetryPlanStatus.scheduled ≡ true = rw s refl in
      elim (Bool-cases (p.remaining_attempts == 0)) [
        | inl none_left ↦
            let e : p.remaining_attempts ≡ p.remaining_attempts - 1 = ground arith in
            (rw (open_, b, none_left) (ap (left p) e), ground arith)
        | inr some_left ↦ (rw (open_, b, some_left) refl, ground arith)
      ]

  -- When attempts whose ids are not blank are asked of a scheduled plan one after the other, it grants as many as remain
  -- and refuses the later ones: at the end what remains is less by their number, stopping at zero, and the plan is
  -- otherwise as it was.
  pub plan_run-dispatches :
      (p : RetryPlan) (xs : List (DeliveryAttemptId × BackendDeliveryResult))
      → p.status ≡ RetryPlanStatus.scheduled
      → AllNamed xs
      → let (after, granted) = plan_run p (dispatches xs) in
        (granted ≡ min (length xs) p.remaining_attempts)
        × (after ≡ record p { remaining_attempts = p.remaining_attempts - length xs })
  unfolding plan_run
  plan_run-dispatches p [] s b =
      let kept : p.remaining_attempts ≡ p.remaining_attempts - 0 = omega arith in
      (omega arith, ap (left p) kept)
  plan_run-dispatches p ((id, r) ∷ xs) s b =
      let (spent, g) = attempted p id r s b.0 in
      let q = left p (p.remaining_attempts - 1) in
      let (m, e) = plan_run-dispatches q xs s b.1 in
      let fewer : p.remaining_attempts - 1 - length xs ≡ p.remaining_attempts - suc (length xs) =
        omega arith in
      (
        rw (spent, g) (omega (arith, m)),
        ap (λ next. (plan_run next (dispatches xs)).0) spent ∙ e ∙ ap (left p) fewer,
      )

  -- A plan just created for a delivery may be retried, and it has the limit's attempts left.
  pub create-can_retry :
      (d : DeliveryRecord) (reason : FailureReason) (policy : RetryPolicyRef) (limit : AttemptLimit)
      (now : Timestamp) {p : RetryPlan}
      → create d reason policy limit now ≡ ok p
      → (can_retry d p ≡ ok tt) × (p.remaining_attempts ≡ limit)
  unfolding create can_retry
  create-can_retry d reason policy limit now h = ground (arith, text_eq_refl d.delivery_id)

  -- `can_retry` passes exactly for a failed delivery and a scheduled plan of its own, of which at
  -- least one attempt, and no more than the limit, remains.
  pub can_retry_iff :
      (d : DeliveryRecord) (p : RetryPlan)
      → (can_retry d p ≡ ok tt)
        ↔ (d.status ≡ DeliveryStatus.failed)
          × (p.delivery_id ≡ d.delivery_id)
          × (p.status ≡ RetryPlanStatus.scheduled)
          × (0 < p.remaining_attempts)
          × (p.remaining_attempts ≤ p.max_attempts)
  unfolding can_retry
  can_retry_iff d p = (
    λ h. ground (arith, text_eq_iff p.delivery_id d.delivery_id),
    λ h. ground (arith, text_eq_iff p.delivery_id d.delivery_id),
  )

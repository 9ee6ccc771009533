-- ===== src/Infra/Store/Isolation.antt =====
-- The part of the state that staging calls may touch.
use quantalithos_bus.Base.{
  ℕ, ◌≡◌, refl, Bool, true, false, Option, none, some, List, [], ◌∷◌, arith, if◌then◌else◌, ap, ◌∙◌,
  Result, ok, err,
}
use quantalithos_bus.Base.Maps.{
  contains_key-insert, get-insert_other, get, contains_key, text_key, id_key, pair_key,
}
use quantalithos_bus.Contracts.Core.{Core}
use quantalithos_bus.Application.Ports.{RepositoryError}
use quantalithos_bus.Domain.Delivery.{DeliveryRecord}
use quantalithos_bus.Domain.Recovery.DeadLetter.{DeadLetterEntry}
use quantalithos_bus.Domain.Recovery.Failure.{FailureMaterial}
use quantalithos_bus.Domain.Recovery.Retry.{RetryPlan}
use quantalithos_bus.Infra.Store.{MemoryStore, StagedTransaction}
use quantalithos_bus.Infra.Store.Staging.{with_staged}
use quantalithos_bus.Infra.Store.Staging.{
  store_staged, with_found, stage_publication, stage_publication_material, stage_idempotency_anchor,
  stage_idempotency_conflict, stage_audit_entry, stage_feedback, save_found, stage_delivery_save,
  stage_transport_view_projection, stage_failure_summary_projection, stage_backend_health_view,
}
use quantalithos_bus.Infra.Store.RecoveryStaging.{
  save_plan, stage_retry_plan_save, link_found, stage_dead_letter_save,
  stage_replay_preparation_save,
}
use quantalithos_bus.Infra.Store.Calls.{
  StageCall, stages_publication, stages_material, stages_anchor, stages_conflict, stages_audit,
  stages_feedback, saves_delivery, saves_retry_plan, saves_dead_letter, saves_replay, stages_view,
  stages_summary, stages_health, stage, stage_all,
}

module _ ⦃core : Core⦄ where
  open core use {Version}

  -- From `s` to `s'` the committed state and the transactions other than `id` stay, an open
  -- transaction `id` stays open, and a closed one closed.
  pub record Within (id : ℕ) (s s' : MemoryStore) : Type 0 where
    pub committed : record s' { transactions = s.transactions } ≡ s
    pub others : (j : ℕ) → id_key.same j id ≡ false → get j s'.transactions ≡ get j s.transactions
    pub stays : contains_key id s.transactions ≡ true → contains_key id s'.transactions ≡ true
    pub shut : get id s.transactions ≡ none → get id s'.transactions ≡ none

  Within-refl : (id : ℕ) (s : MemoryStore) → Within id s s
  Within-refl id s = record {
    committed = refl;
    others = λ j h. refl;
    stays = λ h. h;
    shut = λ h. h;
  }

  pub Within-trans : (id : ℕ) (s t u : MemoryStore) → Within id s t → Within id t u → Within id s u
  Within-trans id s t u h k = record {
    committed =
        ap {A = MemoryStore} (λ x. record x { transactions = s.transactions }) k.committed
        ∙ h.committed;
    others = λ j ne. k.others j ne ∙ h.others j ne;
    stays = λ o. k.stays (h.stays o);
    shut = λ n. k.shut (h.shut n);
  }

  -- The same of a method's state, whatever its result.
  pub record Kept {A : Type 0} (id : ℕ) (s : MemoryStore)
      (p : MemoryStore × Result RepositoryError A) : Type 0 where
    pub kept : Within id s p.0

  failed :
      {A : Type 0} (s : MemoryStore) (id : ℕ) (e : RepositoryError) → Kept {A = A} id s (s, err e)
  failed s id e = record { kept = Within-refl id s }

  -- A transaction that was found is open.
  stored-Kept :
      {A : Type 0} (s : MemoryStore) (id : ℕ) (was : StagedTransaction)
      (r : Result RepositoryError (StagedTransaction × A))
      → get id s.transactions ≡ some was
      → Kept id s (store_staged s id r)
  unfolding store_staged
  stored-Kept s id was (err e) h = failed s id e
  stored-Kept s id was (ok (staged, result)) h = record {
    kept = record {
      committed = refl;
      others = λ j ne. get-insert_other j id staged s.transactions ne;
      stays = λ o. contains_key-insert id staged s.transactions;
      shut = λ n. absurd (ground (arith, n, h));
    };
  }

  found-Kept :
      {A : Type 0} (s : MemoryStore) (id : ℕ)
      (body : StagedTransaction → Result RepositoryError (StagedTransaction × A))
      (o : Option StagedTransaction)
      → get id s.transactions ≡ o
      → Kept id s (with_found s id body o)
  unfolding with_found
  found-Kept s id body none h = failed s id RepositoryError.unavailable
  found-Kept s id body (some staged) h = stored-Kept s id staged (body staged) h

  staged-Kept :
      {A : Type 0} (s : MemoryStore) (id : ℕ)
      (body : StagedTransaction → Result RepositoryError (StagedTransaction × A))
      → Kept id s (with_staged s id body)
  unfolding with_staged
  staged-Kept s id body = found-Kept s id body (get id s.transactions) refl

  guarded-Kept :
      {A : Type 0} (s : MemoryStore) (id : ℕ) (b : Bool) (e : RepositoryError)
      (p : MemoryStore × Result RepositoryError A)
      → Kept id s p
      → Kept id s (if b then (s, err e) else p)
  guarded-Kept s id true e p h = failed s id e
  guarded-Kept s id false e p h = h

  save-Kept :
      (s : MemoryStore) (id : ℕ) (d : DeliveryRecord) (v : Version) (o : Option Version)
      → Kept id s (save_found s id d v o)
  unfolding save_found
  save-Kept s id d v none = failed s id RepositoryError.version_conflict
  save-Kept s id d v (some w) = search (guarded-Kept, staged-Kept)

  link-Kept :
      (s : MemoryStore) (id : ℕ) (e : DeadLetterEntry) (m : FailureMaterial) (o : Option Version)
      → Kept id s (link_found s id e m o)
  unfolding link_found
  link-Kept s id e m none = failed s id RepositoryError.version_conflict
  link-Kept s id e m (some w) = search staged-Kept

  plan-Kept :
      (s : MemoryStore) (id : ℕ) (p : RetryPlan) (v : Version) (o : Option RepositoryError)
      → Kept id s (save_plan s id p v o)
  unfolding save_plan
  plan-Kept s id p v (some e) = failed s id e
  plan-Kept s id p v none = search (guarded-Kept, staged-Kept)

  -- A staging call changes no committed state and no transaction but its own.
  pub stage-Within : (s : MemoryStore) (id : ℕ) (c : StageCall) → Within id s (stage s id c)
  unfolding stage stage_publication stage_publication_material stage_idempotency_anchor
      stage_idempotency_conflict stage_audit_entry stage_feedback stage_delivery_save
      stage_retry_plan_save stage_dead_letter_save stage_replay_preparation_save
      stage_transport_view_projection stage_failure_summary_projection stage_backend_health_view
  stage-Within s id (stages_publication a) =
      let h : Kept id s (stage_publication s id a) = search (guarded-Kept, staged-Kept) in h.kept
  stage-Within s id (stages_material m) =
      let h : Kept id s (stage_publication_material s id m) = search (guarded-Kept, staged-Kept) in
      h.kept
  stage-Within s id (stages_anchor a) =
      let h : Kept id s (stage_idempotency_anchor s id a) = search (guarded-Kept, staged-Kept) in
      h.kept
  stage-Within s id (stages_conflict scope key c) =
      let h : Kept id s (stage_idempotency_conflict s id scope key c) = search staged-Kept in h.kept
  stage-Within s id (stages_audit e) =
      let h : Kept id s (stage_audit_entry s id e) = search staged-Kept in h.kept
  stage-Within s id (stages_feedback f) =
      let h : Kept id s (stage_feedback s id f) = search (guarded-Kept, staged-Kept) in h.kept
  stage-Within s id (saves_delivery d v) =
      (save-Kept s id d v (get d.delivery_id s.delivery_versions)).kept
  stage-Within s id (saves_retry_plan p v) =
      let h : Kept id s (stage_retry_plan_save s id p v) = search plan-Kept in h.kept
  stage-Within s id (saves_dead_letter e m) =
      let h : Kept id s (stage_dead_letter_save s id e m) = search (guarded-Kept, link-Kept) in
      h.kept
  stage-Within s id (saves_replay p) =
      let h : Kept id s (stage_replay_preparation_save s id p) =
        search (guarded-Kept, staged-Kept) in
      h.kept
  stage-Within s id (stages_view p) =
      let h : Kept id s (stage_transport_view_projection s id p) = search staged-Kept in h.kept
  stage-Within s id (stages_summary p) =
      let h : Kept id s (stage_failure_summary_projection s id p) = search staged-Kept in h.kept
  stage-Within s id (stages_health v) =
      let h : Kept id s (stage_backend_health_view s id v) = search staged-Kept in h.kept

  -- Staging calls on one transaction leave all committed state and every other transaction as they were, and
  -- their transaction open or closed as it was.
  pub stage_all-Within :
      (s : MemoryStore) (id : ℕ) (calls : List StageCall) → Within id s (stage_all s id calls)
  unfolding stage_all
  stage_all-Within s id [] = Within-refl id s
  stage_all-Within s id (c ∷ calls) =
      Within-trans id s (stage s id c) (stage_all (stage s id c) id calls) (stage-Within s id c)
        (stage_all-Within (stage s id c) id calls)

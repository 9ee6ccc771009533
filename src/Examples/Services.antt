-- ===== src/Examples/Services.antt =====
-- Examples on the services.
use quantalithos_bus.Base.{ℕ, ◌≡◌, refl, true, Option, none, some, List, [], ◌∷◌, ◌++◌, ok, false}
use quantalithos_bus.Base.Text.{
  text_lt, codes, is_blank, starts_with, contains, show, is_ascii_alphanumeric,
}
use quantalithos_bus.Contracts.Metadata.{sanitize}
use quantalithos_bus.Application.Errors.{error_details_ref}
use quantalithos_bus.Contracts.Inputs.{AcceptPublicationCommand}
use quantalithos_bus.Contracts.Receipts.{publication_acceptance_accepted}
use quantalithos_bus.Infra.Store.{store_new}
use quantalithos_bus.Infra.System.{System}
use quantalithos_bus.Application.Ports.{RepositoryError}
use quantalithos_bus.Application.Services.Publication.Accept.{accept_publication}
use quantalithos_bus.Application.Idempotence.Replay.{accept-repeated}
use quantalithos_bus.Application.Requests.{
  Serializer, Request, serve, serve_all, is_refused, accepts,
}
use quantalithos_bus.Application.Requests.Failure.{serve-failed_unchanged}
use quantalithos_bus.Application.Requests.Refinement.{serve_all-Consistent}
use quantalithos_bus.Infra.Store.Consistency.{Consistent, store_run, store_new-run-Consistent}
use quantalithos_bus.Base.{length, arith, err}
use quantalithos_bus.Contracts.Status.{JobTriggerSource}
use quantalithos_bus.Contracts.Metadata.{JobMetadata}
use quantalithos_bus.Contracts.Inputs.{PrepareReplayCommand}
use quantalithos_bus.Contracts.Jobs.{RunRetryCycleJob, RetryCycleResult, retry_cycle_failed}
use quantalithos_bus.Domain.Audit.{
  BusAuditEntry, SubjectRef, AuditAction, PrivilegedAccessScope, PrivilegedAccessDecision,
  PrivilegedAccessRejectionReason,
}
use quantalithos_bus.Infra.Store.Seeds.{seed_delivery, seed_retry_plan}
use quantalithos_bus.Infra.Store.Queries.{due_retry_plans}
use quantalithos_bus.Contracts.Metadata.{
  BackendDeliveryResult, DeliveryId, capability_eq, next_attempt_no,
}
use quantalithos_bus.Contracts.Status.{DeliveryStatus}
use quantalithos_bus.Domain.Delivery.{DeliveryRecord}
use quantalithos_bus.Domain.Delivery.Attempt.{start, attempt_id_of}
use quantalithos_bus.Domain.Delivery.Dispatching.{arrived}
use quantalithos_bus.Base.Text.{text_eq, to_ascii_lowercase}
use quantalithos_bus.Domain.Backend.{looks_like_private_backend_payload}
use quantalithos_bus.Base.Maps.{get, text_key}
use quantalithos_bus.Infra.Store.Queries.{delivery}
use quantalithos_bus.Infra.Store.Saving.{saved}
use quantalithos_bus.Infra.System.Backend.{delivered_result, dispatch_injected}
use quantalithos_bus.Application.Services.Delivery.{progress_one}
use quantalithos_bus.Application.Progress.Delivers.{dispatch_audits, progress_one-delivers}
use quantalithos_bus.Application.Services.Recovery.Cycle.{run_retry_cycle, cursor_after_plans}
use quantalithos_bus.Application.Services.Recovery.Replay.{
  prepare_replay, privileged_access_error, validate_prepare_replay,
}
use quantalithos_bus.Application.Batches.{
  run_retry_cycle_counts, outcomes, count_retried, count_exhausted, count_failed,
}
use quantalithos_bus.Application.Requests.Refusal.{prepare_replay-refused}
use quantalithos_bus.Examples.Recoveries.{failed_delivery, plan}
use quantalithos_bus.Examples.Fixtures.{text_core, capability, command, scheduled_delivery}

abbrev pub system : System
system = record {
  store = store_new;
  now = codes "5";
  id_generator = record { audit_entry = 0; idempotency_anchor = 0 };
  backend = record { capability_ref = capability; available = true; failures = [] };
  fail_next_append = none;
  fail_next_commit = none;
}

-- A serialization of commands, in which the texts stand one after the other.
abbrev command_vec : AcceptPublicationCommand → Option (List ℕ)
command_vec c = some (c.source_record_ref ++ c.payload_ref)

abbrev to_vec : Serializer
to_vec = record {
  publication_command = command_vec;
  outbox_fact = λ i. none;
  feedback_command = λ c. none;
  backend_signal = λ i. none;
  timeout_signal = λ i. none;
}

accepts_command :
    (accept_publication command_vec command true (codes "m") system).1
    ≡ ok (publication_acceptance_accepted (codes "pub_a_b") (codes "audit_0001"))
unfolding accept_publication is_blank starts_with contains sanitize show is_ascii_alphanumeric
accepts_command = refl

abbrev failing : System
failing = record system { fail_next_append = some RepositoryError.unavailable }

serve-failed_unchanged_example :
    record (serve to_vec (accepts command true (codes "m")) failing).0.store {
      transactions = [];
      next_transaction_id = 0;
    }
    ≡ store_new
unfolding serve is_blank starts_with contains error_details_ref is_refused
serve-failed_unchanged_example =
    serve-failed_unchanged to_vec (accepts command true (codes "m")) failing _ refl refl refl

-- The command again, with another actor.
accept-repeated_example :
    let t = (accept_publication command_vec command true (codes "m") system).0 in
    accept_publication command_vec command false (codes "m") t
    ≡ (t, ok (publication_acceptance_accepted (codes "pub_a_b") (codes "audit_0001")))
unfolding accept_publication is_blank starts_with contains sanitize show is_ascii_alphanumeric
accept-repeated_example =
    accept-repeated command_vec command true false (codes "m") (codes "m") system
      (publication_acceptance_accepted (codes "pub_a_b") (codes "audit_0001")) refl refl

abbrev twice : List Request
twice = accepts command true (codes "m") ∷ accepts command false (codes "m") ∷ []

serve_all-Consistent_example : Consistent (serve_all to_vec twice system).store
unfolding store_run
serve_all-Consistent_example =
    serve_all-Consistent to_vec twice system (store_new-run-Consistent [])

abbrev job : RunRetryCycleJob
job = record { job_run_id = codes "j"; cursor = codes ""; batch_size = 10; now = codes "5" }

abbrev job_metadata : JobMetadata
job_metadata = record {
  job_run_id = codes "j";
  trace_ref = codes "t";
  trigger_source = JobTriggerSource.cli;
}

-- A failed delivery, with a plan that is due.
abbrev retrying : System
retrying = record system {
  store = (seed_retry_plan (seed_delivery store_new failed_delivery).0 plan).0;
}

run_retry_cycle_counts_example :
    let plans = due_retry_plans retrying.store job.cursor job.batch_size job.now in
    let os = outcomes job true job_metadata plans retrying in
    (t : RetryCycleResult) × ((run_retry_cycle job true job_metadata retrying).1 ≡ ok t)
    × (t.retried ≡ count_retried os)
    × (t.exhausted ≡ count_exhausted os)
    × (retry_cycle_failed t ≡ count_failed os)
    × (t.scanned ≡ length plans)
    × (t.next_cursor ≡ cursor_after_plans job.cursor plans)
run_retry_cycle_counts_example = run_retry_cycle_counts job true job_metadata retrying (omega arith)

due_plan :
    due_retry_plans retrying.store job.cursor job.batch_size job.now
    ≡ record plan { version = 1 } ∷ []
unfolding due_retry_plans seed_retry_plan seed_delivery text_lt
due_plan = refl

abbrev replay_command : PrepareReplayCommand
replay_command = record {
  dead_letter_id = codes "d";
  audit_chain_ref = codes "c";
  approval_ref = codes "a";
  replay_reason = codes "r";
}

prepare_replay-refused_example :
    let t = (prepare_replay replay_command false (codes "m") system).0 in
    ((prepare_replay replay_command false (codes "m") system).1
      ≡ err (privileged_access_error PrivilegedAccessRejectionReason.missing_role_hint))
    × (record t.store { audits = []; next_audit_sequence = 0 } ≡ store_new)
    × ((entry : BusAuditEntry) × (t.store.audits ≡ entry ∷ [])
        × (entry.subject_ref ≡ SubjectRef.dead_letter (codes "d"))
        × (entry.actor ≡ false)
        × (entry.action
            ≡ AuditAction.privileged_access PrivilegedAccessScope.replay_preparation (
                PrivilegedAccessDecision.rejected
                  PrivilegedAccessRejectionReason.missing_role_hint)))
unfolding validate_prepare_replay is_blank
prepare_replay-refused_example =
    prepare_replay-refused replay_command false (codes "m") system refl refl refl

-- A stored delivery that waits for its dispatch, and its backend.
abbrev waiting : System
waiting = record system { store = (seed_delivery store_new scheduled_delivery).0 }

abbrev waiting_delivery : DeliveryRecord
waiting_delivery = record scheduled_delivery { version = 1 }

abbrev backend_result : BackendDeliveryResult
backend_result = delivered_result (some (codes "backend_delivery_attempt_delivery_pub_s_1"))

progress_one-delivers_example :
    let (t, result) = progress_one (codes "delivery_pub_s") (codes "b") true job_metadata waiting in
    (result
      ≡ ok (record {
        delivery_id = codes "delivery_pub_s";
        final_status = DeliveryStatus.delivered;
        retryable = false;
        manual_action_required = false;
      }))
    × (delivery t.store (codes "delivery_pub_s")
        ≡ some (saved (arrived waiting_delivery (codes "5") backend_result (codes "5")) 1))
    × (get (codes "delivery_pub_s") t.store.delivery_versions ≡ some 2)
    × (t.store.audits
        ≡ waiting.store.audits ++ dispatch_audits true job_metadata waiting_delivery (codes "5"))
    × ((k : DeliveryId)
        → text_eq k (codes "delivery_pub_s") ≡ false
        → delivery t.store k ≡ delivery waiting.store k)
unfolding seed_delivery is_blank contains dispatch_injected attempt_id_of start sanitize show
    is_ascii_alphanumeric text_eq looks_like_private_backend_payload to_ascii_lowercase
    capability_eq next_attempt_no
progress_one-delivers_example =
    progress_one-delivers (codes "b") true job_metadata waiting waiting_delivery backend_result refl
      refl
      (record { numbered = tt; counted = refl; latest = refl; dispatched = λ h. cc; logged = tt })
      refl (omega arith) refl refl refl refl refl

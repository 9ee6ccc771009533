-- ===== src/Application/Requests.antt =====
-- The use cases of crates/application/src/services, as requests to one system.
pub mod Failure
pub mod Refinement
pub mod Refusal
use quantalithos_bus.Base.{ℕ, Bool, false, not, Option, List, [], ◌∷◌, Result}
use quantalithos_bus.Base.Actions.{pure, ◌>>=◌}
use quantalithos_bus.Contracts.Core.{Core}
use quantalithos_bus.Contracts.Metadata.{DeliveryId, JobMetadata, EventMetadata}
use quantalithos_bus.Contracts.Projections.{BackendId}
use quantalithos_bus.Contracts.Inputs.{
  AcceptPublicationCommand, CommittedOutboxFactInput, RecordDeliveryFeedbackCommand,
  BackendDeliverySignalInput, DeliveryTimeoutSignalInput, RequestRetryCommand,
  MoveDeliveryToDeadLetterCommand, PrepareReplayCommand,
}
use quantalithos_bus.Contracts.Jobs.{RunDeliveryProgressionJob, RunRetryCycleJob}
use quantalithos_bus.Application.Services.Recovery.Cycle.{run_retry_cycle}
use quantalithos_bus.Application.Services.Recovery.Commands.{request_retry, move_to_dead_letter}
use quantalithos_bus.Application.Services.Recovery.Replay.{prepare_replay}
use quantalithos_bus.Infra.System.{System}
use quantalithos_bus.Application.Services.{App}
use quantalithos_bus.Application.Services.Delivery.{progress_one}
use quantalithos_bus.Application.Services.Delivery.Batch.{progress_batch}
use quantalithos_bus.Application.Services.Publication.Accept.{
  accept_publication, accept_from_outbox_fact,
}
use quantalithos_bus.Application.Services.Feedback.Record.{record_feedback}
use quantalithos_bus.Application.Services.Feedback.Signal.{record_backend_signal}
use quantalithos_bus.Application.Services.Feedback.Timeout.{record_timeout}

module _ ⦃core : Core⦄ where
  open core use {ActorContext, CommandMetadata, has_role_refs}

  -- `serde_json::to_vec` on the inputs that are digested. It is not part of this repository.
  pub record Serializer : Type 0 where
    pub publication_command : AcceptPublicationCommand → Option (List ℕ)
    pub outbox_fact : CommittedOutboxFactInput → Option (List ℕ)
    pub feedback_command : RecordDeliveryFeedbackCommand → Option (List ℕ)
    pub backend_signal : BackendDeliverySignalInput → Option (List ℕ)
    pub timeout_signal : DeliveryTimeoutSignalInput → Option (List ℕ)

  pub data Request : Type 0 where
    progresses : DeliveryId → BackendId → ActorContext → JobMetadata → Request
    runs_batch : RunDeliveryProgressionJob → ActorContext → JobMetadata → Request
    accepts : AcceptPublicationCommand → ActorContext → CommandMetadata → Request
    consumes : CommittedOutboxFactInput → ActorContext → EventMetadata → Request
    records : RecordDeliveryFeedbackCommand → ActorContext → CommandMetadata → Request
    signals : BackendDeliverySignalInput → ActorContext → EventMetadata → Request
    times_out : DeliveryTimeoutSignalInput → ActorContext → EventMetadata → Request
    asks_retry : RequestRetryCommand → ActorContext → CommandMetadata → Request
    runs_retries : RunRetryCycleJob → ActorContext → JobMetadata → Request
    moves_dead : MoveDeliveryToDeadLetterCommand → ActorContext → CommandMetadata → Request
    prepares : PrepareReplayCommand → ActorContext → CommandMetadata → Request

  -- The handler of a request, its result dropped.
  unfoldable pub serve : Serializer → Request → App (Unit {0})
  unfolding progress_one accept_publication accept_from_outbox_fact record_feedback
      record_backend_signal record_timeout progress_batch request_retry run_retry_cycle
      move_to_dead_letter prepare_replay ◌>>=◌ pure
  serve to_vec (progresses id backend_id actor meta) =
      progress_one id backend_id actor meta >>= (λ r. pure tt)
  serve to_vec (accepts command actor meta) =
      accept_publication to_vec.publication_command command actor meta >>= (λ r. pure tt)
  serve to_vec (consumes input actor meta) =
      accept_from_outbox_fact to_vec.outbox_fact input actor meta >>= (λ r. pure tt)
  serve to_vec (records command actor meta) =
      record_feedback to_vec.feedback_command command actor meta >>= (λ r. pure tt)
  serve to_vec (signals input actor meta) =
      record_backend_signal to_vec.backend_signal input actor meta >>= (λ r. pure tt)
  serve to_vec (times_out input actor meta) =
      record_timeout to_vec.timeout_signal input actor meta >>= (λ r. pure tt)
  serve to_vec (runs_batch job actor meta) = progress_batch job actor meta >>= (λ r. pure tt)
  serve to_vec (asks_retry command actor meta) = request_retry command actor meta >>= (λ r. pure tt)
  serve to_vec (runs_retries job actor meta) = run_retry_cycle job actor meta >>= (λ r. pure tt)
  serve to_vec (moves_dead command actor meta) =
      move_to_dead_letter command actor meta >>= (λ r. pure tt)
  serve to_vec (prepares command actor meta) = prepare_replay command actor meta >>= (λ r. pure tt)

  -- A preparation of a replay by an actor without a role: its refusal is audited.
  unfoldable pub is_refused : Request → Bool
  is_refused (prepares command actor meta) = not (has_role_refs actor)
  is_refused _ = false

  -- Requests one after the other, failed ones included.
  unfoldable pub serve_all : Serializer → List Request → System → System
  unfolding serve
  serve_all to_vec [] system = system
  serve_all to_vec (request ∷ requests) system =
      serve_all to_vec requests (serve to_vec request system).0

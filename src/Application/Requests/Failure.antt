-- ===== src/Application/Requests/Failure.antt =====
-- What a request that fails leaves.
use quantalithos_bus.Base.{◌≡◌, none, err, false, arith}
use quantalithos_bus.Contracts.Core.{Core}
use quantalithos_bus.Application.Errors.{ApplicationError, error_details_ref}
use quantalithos_bus.Infra.System.{System}
use quantalithos_bus.Application.Atomicity.{Atomic, Sure-pure}
use quantalithos_bus.Application.Atomicity.Blocks.{Atomic-then-Sure}
use quantalithos_bus.Application.Atomicity.Calls.{Untraced}
use quantalithos_bus.Application.Atomicity.Delivery.{Atomic-progress_one}
use quantalithos_bus.Application.Atomicity.Publication.{
  Atomic-accept_publication, Atomic-accept_from_outbox_fact,
}
use quantalithos_bus.Application.Atomicity.Feedback.{Atomic-record_feedback}
use quantalithos_bus.Application.Atomicity.Feedback.Timeout.{Atomic-record_timeout}
use quantalithos_bus.Application.Atomicity.Feedback.Signal.{Atomic-record_backend_signal}
use quantalithos_bus.Application.Services.Recovery.Replay.{prepare_replay}
use quantalithos_bus.Application.Atomicity.Recovery.{
  Atomic-progress_batch, Atomic-request_retry, Atomic-run_retry_cycle, Atomic-move_to_dead_letter,
  Atomic-prepare_replay,
}
use quantalithos_bus.Application.Requests.{
  Serializer, Request, progresses, accepts, consumes, records, signals, times_out, runs_batch,
  asks_retry, runs_retries, moves_dead, prepares, serve, is_refused,
}

module _ ⦃core : Core⦄ where
  Atomic-serve :
      (to_vec : Serializer) (r : Request) → is_refused r ≡ false → Atomic Untraced (serve to_vec r)
  unfolding serve is_refused
  Atomic-serve to_vec (progresses id b actor meta) h =
      search (Atomic-then-Sure, Atomic-progress_one, Sure-pure)
  Atomic-serve to_vec (accepts c actor meta) h =
      search (Atomic-then-Sure, Atomic-accept_publication, Sure-pure)
  Atomic-serve to_vec (consumes i actor meta) h =
      search (Atomic-then-Sure, Atomic-accept_from_outbox_fact, Sure-pure)
  Atomic-serve to_vec (records c actor meta) h =
      search (Atomic-then-Sure, Atomic-record_feedback, Sure-pure)
  Atomic-serve to_vec (signals i actor meta) h =
      search (Atomic-then-Sure, Atomic-record_backend_signal, Sure-pure)
  Atomic-serve to_vec (times_out i actor meta) h =
      search (Atomic-then-Sure, Atomic-record_timeout, Sure-pure)
  Atomic-serve to_vec (runs_batch job actor meta) h =
      search (Atomic-then-Sure, Atomic-progress_batch, Sure-pure)
  Atomic-serve to_vec (asks_retry c actor meta) h =
      search (Atomic-then-Sure, Atomic-request_retry, Sure-pure)
  Atomic-serve to_vec (runs_retries job actor meta) h =
      search (Atomic-then-Sure, Atomic-run_retry_cycle, Sure-pure)
  Atomic-serve to_vec (moves_dead c actor meta) h =
      search (Atomic-then-Sure, Atomic-move_to_dead_letter, Sure-pure)
  Atomic-serve to_vec (prepares c actor meta) h =
      Atomic-then-Sure Untraced (prepare_replay c actor meta) _
        (Atomic-prepare_replay Untraced c actor meta (ground arith)) (λ r. Sure-pure Untraced tt)

  -- A request that fails with an error that names no audit entry, changes no committed table: all of the store but its
  -- open transactions and their counter is as it was. The exception is the preparation of a replay by an actor without
  -- a role, whose refusal is audited.
  pub serve-failed_unchanged :
      (to_vec : Serializer) (r : Request) (s : System) (e : ApplicationError)
      → (serve to_vec r s).1 ≡ err e
      → error_details_ref e ≡ none
      → is_refused r ≡ false
      → record (serve to_vec r s).0.store {
        transactions = s.store.transactions;
        next_transaction_id = s.store.next_transaction_id;
      }
        ≡ s.store
  serve-failed_unchanged to_vec r s e failed untraced unrefused =
      ((Atomic-serve to_vec r unrefused).at s e failed untraced).same

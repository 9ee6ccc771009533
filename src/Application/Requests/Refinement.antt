-- ===== src/Application/Requests/Refinement.antt =====
-- What requests keep of the store, as calls of the store.
use quantalithos_bus.Base.{subst, List, [], ◌∷◌}
use quantalithos_bus.Contracts.Core.{Core}
use quantalithos_bus.Infra.Store.Consistency.{Consistent, run-Consistent}
use quantalithos_bus.Infra.System.{System}
use quantalithos_bus.Application.Follows.{
  Runs, Runs-refl, Runs-trans, Follows, Follows-bind, Follows-pure,
}
use quantalithos_bus.Application.Follows.Delivery.{Follows-progress_one}
use quantalithos_bus.Application.Follows.Publication.{
  Follows-accept_publication, Follows-accept_from_outbox_fact,
}
use quantalithos_bus.Application.Follows.Feedback.{
  Follows-record_feedback, Follows-record_backend_signal, Follows-record_timeout,
}
use quantalithos_bus.Application.Follows.Recovery.{
  Follows-progress_batch, Follows-request_retry, Follows-run_retry_cycle,
  Follows-move_to_dead_letter, Follows-prepare_replay,
}
use quantalithos_bus.Application.Requests.{
  Serializer, Request, progresses, accepts, consumes, records, signals, times_out, runs_batch,
  asks_retry, runs_retries, moves_dead, prepares, serve, serve_all,
}

module _ ⦃core : Core⦄ where
  Follows-serve : (to_vec : Serializer) (r : Request) → Follows (serve to_vec r)
  unfolding serve
  Follows-serve to_vec (progresses id b actor meta) =
      search (Follows-bind, Follows-progress_one, Follows-pure)
  Follows-serve to_vec (accepts c actor meta) =
      search (Follows-bind, Follows-accept_publication, Follows-pure)
  Follows-serve to_vec (consumes i actor meta) =
      search (Follows-bind, Follows-accept_from_outbox_fact, Follows-pure)
  Follows-serve to_vec (records c actor meta) =
      search (Follows-bind, Follows-record_feedback, Follows-pure)
  Follows-serve to_vec (signals i actor meta) =
      search (Follows-bind, Follows-record_backend_signal, Follows-pure)
  Follows-serve to_vec (times_out i actor meta) =
      search (Follows-bind, Follows-record_timeout, Follows-pure)
  Follows-serve to_vec (runs_batch job actor meta) =
      search (Follows-bind, Follows-progress_batch, Follows-pure)
  Follows-serve to_vec (asks_retry c actor meta) =
      search (Follows-bind, Follows-request_retry, Follows-pure)
  Follows-serve to_vec (runs_retries job actor meta) =
      search (Follows-bind, Follows-run_retry_cycle, Follows-pure)
  Follows-serve to_vec (moves_dead c actor meta) =
      search (Follows-bind, Follows-move_to_dead_letter, Follows-pure)
  Follows-serve to_vec (prepares c actor meta) =
      search (Follows-bind, Follows-prepare_replay, Follows-pure)

  serve_all-Runs :
      (to_vec : Serializer) (rs : List Request) (s : System)
      → Runs s.store (serve_all to_vec rs s).store
  unfolding serve_all
  serve_all-Runs to_vec [] s = Runs-refl s.store
  serve_all-Runs to_vec (r ∷ rs) s =
      let t = (serve to_vec r s).0 in
      Runs-trans s.store t.store (serve_all to_vec rs t).store ((Follows-serve to_vec r).at s)
        (serve_all-Runs to_vec rs t)

  -- If the versions that saves are compared with are those of the stored records, they still are after any requests,
  -- failed ones included.
  pub serve_all-Consistent :
      (to_vec : Serializer) (rs : List Request) (s : System)
      → Consistent s.store
      → Consistent (serve_all to_vec rs s).store
  serve_all-Consistent to_vec rs s c =
      let h = serve_all-Runs to_vec rs s in
      subst Consistent h.ran (run-Consistent s.store h.calls c)

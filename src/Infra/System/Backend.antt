-- ===== src/Infra/System/Backend.antt =====
-- crates/infra/src/repositories.rs: the in-memory transport backend.
use quantalithos_bus.Base.{
  Bool, not, ◌||◌, ◌++◌, [], ◌∷◌, Option, none, some, Result, ok, err, if◌then◌else◌,
}
use quantalithos_bus.Base.Actions.{Action}
use quantalithos_bus.Base.Text.{Text, codes, contains}
use quantalithos_bus.Base.Maps.{get, remove, text_key}
use quantalithos_bus.Contracts.Core.{Core}
use quantalithos_bus.Contracts.Status.{BackendStatus, BackendDeliveryStatus}
use quantalithos_bus.Contracts.Metadata.{
  BackendDeliveryResult, BackendDeliveryRef, BackendCapabilityRef, capability_eq,
}
use quantalithos_bus.Contracts.Inputs.{BackendDeliverySignalInput}
use quantalithos_bus.Application.Ports.{BackendDispatchContext, BackendCapabilityReport}
use quantalithos_bus.Application.Errors.{TransportPortError}
use quantalithos_bus.Domain.Backend.{from_capability, rejects_raw_backend_leak, allows_mapping}
use quantalithos_bus.Domain.Delivery.Attempt.{DeliveryAttempt}
use quantalithos_bus.Domain.Publication.Semantic.{TransportSemantic}
use quantalithos_bus.Infra.System.{System, InMemoryTransportBackendAdapter}

-- `BackendDeliveryResult::delivered` and `::failed`.
abbrev pub delivered_result : Option BackendDeliveryRef → BackendDeliveryResult
delivered_result backend_ref = record {
  status = BackendDeliveryStatus.delivered;
  backend_ref = backend_ref;
}

abbrev pub failed_result : Option BackendDeliveryRef → BackendDeliveryResult
failed_result backend_ref = record {
  status = BackendDeliveryStatus.failed;
  backend_ref = backend_ref;
}

unfoldable pub result_ref_looks_private : Text → Bool
result_ref_looks_private value =
    contains value (codes "{") || contains value (codes "}") || contains value (10 ∷ [])

-- The signal's `match signal.backend_status`.
unfoldable pub result_of_status : BackendStatus → Option BackendDeliveryRef → BackendDeliveryResult
result_of_status BackendStatus.delivered backend_ref = delivered_result backend_ref
result_of_status BackendStatus.failed backend_ref = failed_result backend_ref

module _ ⦃core : Core⦄ where
  -- `dispatch` once no failure is injected.
  unfoldable pub dispatch_available :
      InMemoryTransportBackendAdapter
      → TransportSemantic
      → DeliveryAttempt
      → Result TransportPortError BackendDeliveryResult
  unfolding from_capability rejects_raw_backend_leak allows_mapping
  dispatch_available self semantic attempt =
      let policy = from_capability self.capability_ref in
      if not self.available
      then err TransportPortError.backend_unavailable
      else if rejects_raw_backend_leak policy semantic
      then err TransportPortError.private_body_violation
      else if not (allows_mapping policy semantic self.capability_ref)
      then err TransportPortError.capability_mismatch
      else ok (delivered_result (some (codes "backend_delivery_" ++ attempt.attempt_id)))

  -- `dispatch`, on what `failures.remove(&attempt.delivery_id)` gives.
  unfoldable pub dispatch_injected :
      Option TransportPortError
      → TransportSemantic
      → DeliveryAttempt
      → InMemoryTransportBackendAdapter
      → Result TransportPortError BackendDeliveryResult
  unfolding dispatch_available
  dispatch_injected (some error) semantic attempt self = err error
  dispatch_injected none semantic attempt self = dispatch_available self semantic attempt

  unfoldable pub dispatch :
      TransportSemantic
      → DeliveryAttempt
      → BackendDispatchContext
      → Action System TransportPortError BackendDeliveryResult
  unfolding dispatch_injected get remove
  dispatch semantic attempt context system = (
    record system {
      backend = record system.backend {
        failures = remove attempt.delivery_id system.backend.failures;
      };
    },
    dispatch_injected (get attempt.delivery_id system.backend.failures) semantic attempt
        system.backend,
  )

  unfoldable pub normalize_signal :
      BackendDeliverySignalInput → Action System TransportPortError BackendDeliveryResult
  unfolding capability_eq result_ref_looks_private result_of_status
  normalize_signal signal system = (
    system,
    if not (capability_eq signal.backend_capability_ref system.backend.capability_ref)
        then err TransportPortError.capability_mismatch
        else if result_ref_looks_private signal.backend_result_ref
        then err TransportPortError.private_body_violation
        else ok (result_of_status signal.backend_status (some signal.backend_result_ref)),
  )

  unfoldable pub check_capability :
      BackendCapabilityRef → Action System TransportPortError BackendCapabilityReport
  unfolding capability_eq
  check_capability capability_ref system = (
    system,
    if not (capability_eq capability_ref system.backend.capability_ref)
        then err TransportPortError.capability_mismatch
        else ok (record { capability_ref = capability_ref; available = system.backend.available }),
  )

-- ===== src/Examples/Fixtures.antt =====
-- A concrete instance of `core-contracts` in which all identifiers are texts, and the data of the
-- examples.
use quantalithos_bus.Base.{
  ℕ, suc, ◌≢◌, Bool, true, Option, none, some, [], ◌∷◌, ◌++◌, arith, ◌==◌, ==_iff,
}
use quantalithos_bus.Base.Text.{Text, codes, text_eq}
use quantalithos_bus.Base.Text.Laws.{text_eq_iff}
use quantalithos_bus.Contracts.Core.{Core}
use quantalithos_bus.Contracts.Status.{
  PayloadKind, at_least_once, in_memory, DeliveryStatus, FeedbackStatus, BackendDeliveryStatus,
}
use quantalithos_bus.Contracts.Metadata.{
  SubscriberScope, BackendCapabilityRef, BackendDeliveryResult,
}
use quantalithos_bus.Domain.Feedback.{FeedbackResult, FeedbackSource}
use quantalithos_bus.Domain.Delivery.Attempt.{DeliveryAttempt}
use quantalithos_bus.Domain.Delivery.{DeliveryRecord}
use quantalithos_bus.Domain.Publication.Semantic.{TransportSemantic}
use quantalithos_bus.Domain.Publication.Material.{PublicationMaterial}
use quantalithos_bus.Contracts.Inputs.{AcceptPublicationCommand, CommittedOutboxFactInput}

pub suc_ne : (n : ℕ) → suc n ≢ n
suc_ne n = omega arith

instance abbrev pub text_core : Core
text_core = record {
  ActorContext = Bool;
  has_role_refs = λ a. a;
  IdempotencyKey = Text;
  key_as_str = λ k. k;
  key_eq = text_eq;
  key_eq_iff = text_eq_iff;
  Timestamp = Text;
  time_as_str = λ t. t;
  TraceId = Text;
  CommandMetadata = Text;
  request_trace_id = λ m. m;
  request_idempotency_key = λ m. some (codes "key_" ++ m);
  request_requested_at = λ m. m;
  JobRunId = Text;
  Version = ℕ;
  version_zero = 0;
  next_version = suc;
  version_eq = ◌==◌;
  version_eq_iff = ==_iff;
  next_version_ne = suc_ne;
}

abbrev pub scope : SubscriberScope
scope = record { project_id = codes "p"; topic = codes "t" }

abbrev pub capability : BackendCapabilityRef
capability = record {
  capability_id = codes "c";
  backend_kind = in_memory;
  profile_ref = codes "f";
  capability_version = codes "1";
}

abbrev pub semantic : TransportSemantic
semantic = record {
  semantic_id = codes "semantic_pub_c";
  publication_id = codes "pub";
  delivery_mode = at_least_once;
  target_scope = scope;
  backend_capability_ref = capability;
}

abbrev pub scheduled_delivery : DeliveryRecord
scheduled_delivery = record {
  delivery_id = codes "delivery_pub_s";
  publication_id = codes "pub";
  subscriber_ref = codes "s";
  status = DeliveryStatus.scheduled;
  attempt_count = 0;
  idempotency_key = codes "k";
  last_attempt_ref = none;
  transport_semantic = semantic;
  version = 0;
  attempts = [];
  history = [];
}

abbrev pub first_attempt : DeliveryAttempt
first_attempt = record {
  attempt_id = codes "attempt_delivery_pub_s_1";
  delivery_id = codes "delivery_pub_s";
  attempt_no = 1;
  backend_ref = none;
  started_at = codes "1";
  finished_at = some (codes "2");
  result_status = some BackendDeliveryStatus.delivered;
}

abbrev pub with_status : DeliveryStatus → DeliveryRecord
with_status s = record scheduled_delivery {
  status = s;
  attempt_count = 1;
  last_attempt_ref = some first_attempt.attempt_id;
  attempts = first_attempt ∷ [];
}

abbrev pub delivered : BackendDeliveryResult
delivered = record { status = BackendDeliveryStatus.delivered; backend_ref = none }

abbrev pub source : FeedbackSource
source = record { attempt_id = codes "attempt_delivery_pub_s_1"; external_feedback_ref = codes "x" }

abbrev pub feedback_of : FeedbackStatus → Option Text → FeedbackResult
feedback_of status reason = record {
  feedback_id = codes "feedback_delivery_pub_s_x";
  delivery_id = codes "delivery_pub_s";
  status = status;
  reason = reason;
  observed_at = codes "3";
  actor = true;
  source = source;
  version = 0;
  audit_ref = none;
}

abbrev pub command : AcceptPublicationCommand
command = record {
  source_system = codes "a";
  source_record_ref = codes "b";
  core_event_ref = codes "e";
  payload_ref = codes "r";
  payload_kind = PayloadKind.artifact_ref;
  payload_digest = codes "d";
  delivery_mode = at_least_once;
  target_scope = record { project_id = codes "p"; topic = codes "t" };
}

abbrev pub outbox_fact : CommittedOutboxFactInput
outbox_fact = record {
  event_id = codes "e";
  source_ref = codes "s";
  core_event_envelope_ref = codes "v";
  core_event_ref = codes "e";
  committed_fact_ref = codes "o";
  source_system = codes "a";
  source_record_ref = codes "b";
  payload_ref = codes "r";
  payload_kind = PayloadKind.artifact_ref;
  payload_digest = codes "d";
  delivery_mode = at_least_once;
  target_scope = record { project_id = codes "p"; topic = codes "t" };
  idempotency_key = codes "k";
}

abbrev pub material_of : Option Text → Option Text → PublicationMaterial
material_of envelope fact = record {
  publication_id = codes "pub_a_b";
  source_system = codes "a";
  source_record_ref = codes "b";
  core_event_ref = codes "e";
  core_event_envelope_ref = envelope;
  payload_ref = codes "r";
  payload_kind = PayloadKind.artifact_ref;
  payload_digest = codes "d";
  delivery_mode = at_least_once;
  target_scope = record { project_id = codes "p"; topic = codes "t" };
  outbox_fact_ref = fact;
  actor = true;
  trace_ref = codes "z";
}

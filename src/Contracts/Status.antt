-- ===== src/Contracts/Status.antt =====
-- The status enums of crates/contracts/src/metadata.rs, each with its derived equality.
use Prim.Native.Nat.{ℕ}
use mathlib.Core.Bool.{Bool, true}
use mathlib.Core.Path.{◌≡◌}
use mathlib.Core.Logic.{◌↔◌}
use native.Mathlib.Omega.{arith}
use quantalithos_bus.Base.{◌==◌}

pub data PayloadKind : Type 0 where
  artifact_ref : PayloadKind

pub data DeliveryMode : Type 0 where
  at_least_once : DeliveryMode

pub data BackendKind : Type 0 where
  in_memory : BackendKind

pub data PublicationAcceptanceStatus : Type 0 where
  pending accepted rejected : PublicationAcceptanceStatus

pub data DeliveryStatus : Type 0 where
  scheduled dispatching delivered failed dead_lettered completed : DeliveryStatus

pub data RetryPlanStatus : Type 0 where
  scheduled exhausted cancelled : RetryPlanStatus

pub data DeadLetterStatus : Type 0 where
  open_entry reviewing closed : DeadLetterStatus

pub data ReplayPreparationStatus : Type 0 where
  draft ready rejected superseded : ReplayPreparationStatus

pub data FeedbackKind : Type 0 where
  ack fail : FeedbackKind

pub data FeedbackStatus : Type 0 where
  ack fail timeout duplicate : FeedbackStatus

pub data BackendStatus : Type 0 where
  delivered failed : BackendStatus

pub data BackendDeliveryStatus : Type 0 where
  delivered failed : BackendDeliveryStatus

pub data TimeoutReason : Type 0 where
  dispatch_timeout : TimeoutReason

pub data FeedbackRecordStatus : Type 0 where
  recorded : FeedbackRecordStatus

pub data JobTriggerSource : Type 0 where
  scheduler cli : JobTriggerSource

-- The derived equalities compare the constructors' numbers.
abbrev pub acceptance_tag : PublicationAcceptanceStatus → ℕ
acceptance_tag pending = 0
acceptance_tag accepted = 1
acceptance_tag rejected = 2

abbrev pub acceptance_eq : PublicationAcceptanceStatus → PublicationAcceptanceStatus → Bool
acceptance_eq a b = acceptance_tag a == acceptance_tag b

abbrev pub delivery_tag : DeliveryStatus → ℕ
delivery_tag scheduled = 0
delivery_tag dispatching = 1
delivery_tag delivered = 2
delivery_tag failed = 3
delivery_tag dead_lettered = 4
delivery_tag completed = 5

abbrev pub delivery_eq : DeliveryStatus → DeliveryStatus → Bool
delivery_eq a b = delivery_tag a == delivery_tag b

pub delivery_eq_iff : (a b : DeliveryStatus) → (delivery_eq a b ≡ true) ↔ (a ≡ b)
delivery_eq_iff a b = ground arith

abbrev pub retry_tag : RetryPlanStatus → ℕ
retry_tag scheduled = 0
retry_tag exhausted = 1
retry_tag cancelled = 2

abbrev pub retry_eq : RetryPlanStatus → RetryPlanStatus → Bool
retry_eq a b = retry_tag a == retry_tag b

abbrev pub dead_letter_tag : DeadLetterStatus → ℕ
dead_letter_tag open_entry = 0
dead_letter_tag reviewing = 1
dead_letter_tag closed = 2

abbrev pub dead_letter_eq : DeadLetterStatus → DeadLetterStatus → Bool
dead_letter_eq a b = dead_letter_tag a == dead_letter_tag b

abbrev pub replay_tag : ReplayPreparationStatus → ℕ
replay_tag draft = 0
replay_tag ready = 1
replay_tag rejected = 2
replay_tag superseded = 3

abbrev pub replay_eq : ReplayPreparationStatus → ReplayPreparationStatus → Bool
replay_eq a b = replay_tag a == replay_tag b

abbrev pub feedback_tag : FeedbackStatus → ℕ
feedback_tag ack = 0
feedback_tag fail = 1
feedback_tag timeout = 2
feedback_tag duplicate = 3

abbrev pub feedback_eq : FeedbackStatus → FeedbackStatus → Bool
feedback_eq a b = feedback_tag a == feedback_tag b

abbrev pub backend_delivery_tag : BackendDeliveryStatus → ℕ
backend_delivery_tag delivered = 0
backend_delivery_tag failed = 1

abbrev pub backend_delivery_eq : BackendDeliveryStatus → BackendDeliveryStatus → Bool
backend_delivery_eq a b = backend_delivery_tag a == backend_delivery_tag b

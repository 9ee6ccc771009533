-- ===== src/Application/Errors.antt =====
-- crates/application/src/errors.rs: the errors of the ports, and those that the services return.
pub mod From
use quantalithos_bus.Base.{Bool, true, false, Option, none, String}
use quantalithos_bus.Base.Text.{Text}

abbrev pub ErrorDetailsRef : Type 0
ErrorDetailsRef = Text

pub data ProtocolErrorCategory : Type 0 where
  validation not_found conflict boundary_violation dependency internal : ProtocolErrorCategory

pub record ValidationError : Type 0 where
  pub code : String
  pub message : Text
  pub details_ref : Option ErrorDetailsRef

pub record NotFoundError : Type 0 where
  pub code : String
  pub message : Text
  pub details_ref : Option ErrorDetailsRef

pub record ConflictError : Type 0 where
  pub code : String
  pub message : Text
  pub details_ref : Option ErrorDetailsRef

pub record BoundaryViolationError : Type 0 where
  pub code : String
  pub message : Text
  pub details_ref : Option ErrorDetailsRef

pub record DependencyError : Type 0 where
  pub code : String
  pub message : Text
  pub details_ref : Option ErrorDetailsRef
  pub retryable : Bool

pub record InternalError : Type 0 where
  pub code : String
  pub message : Text
  pub details_ref : Option ErrorDetailsRef
  pub manual_action_required : Bool

pub data IdGenerationError : Type 0 where
  exhausted : IdGenerationError

pub data SourcePortError : Type 0 where
  unavailable cursor_invalid ack_failed boundary_violation : SourcePortError

pub data PublisherPortError : Type 0 where
  retryable_failure schema_violation boundary_violation duplicate : PublisherPortError

pub data TransportPortError : Type 0 where
  backend_unavailable capability_mismatch dispatch_timeout : TransportPortError
  private_body_violation : TransportPortError

pub data ApplicationError : Type 0 where
  validation : ValidationError → ApplicationError
  not_found : NotFoundError → ApplicationError
  conflict : ConflictError → ApplicationError
  boundary_violation : BoundaryViolationError → ApplicationError
  dependency : DependencyError → ApplicationError
  internal : InternalError → ApplicationError

unfoldable pub category : ApplicationError → ProtocolErrorCategory
category (ApplicationError.validation _) = ProtocolErrorCategory.validation
category (ApplicationError.not_found _) = ProtocolErrorCategory.not_found
category (ApplicationError.conflict _) = ProtocolErrorCategory.conflict
category (ApplicationError.boundary_violation _) = ProtocolErrorCategory.boundary_violation
category (ApplicationError.dependency _) = ProtocolErrorCategory.dependency
category (ApplicationError.internal _) = ProtocolErrorCategory.internal

unfoldable pub error_code : ApplicationError → String
error_code (ApplicationError.validation error) = error.code
error_code (ApplicationError.not_found error) = error.code
error_code (ApplicationError.conflict error) = error.code
error_code (ApplicationError.boundary_violation error) = error.code
error_code (ApplicationError.dependency error) = error.code
error_code (ApplicationError.internal error) = error.code

unfoldable pub error_message : ApplicationError → Text
error_message (ApplicationError.validation error) = error.message
error_message (ApplicationError.not_found error) = error.message
error_message (ApplicationError.conflict error) = error.message
error_message (ApplicationError.boundary_violation error) = error.message
error_message (ApplicationError.dependency error) = error.message
error_message (ApplicationError.internal error) = error.message

unfoldable pub retryable : ApplicationError → Bool
retryable (ApplicationError.dependency error) = error.retryable
retryable _ = false

unfoldable pub is_rejected_item : ApplicationError → Bool
is_rejected_item (ApplicationError.validation _) = true
is_rejected_item (ApplicationError.conflict _) = true
is_rejected_item (ApplicationError.boundary_violation _) = true
is_rejected_item _ = false

unfoldable pub requires_manual_action : ApplicationError → Bool
requires_manual_action (ApplicationError.internal error) = error.manual_action_required
requires_manual_action _ = false

unfoldable pub error_details_ref : ApplicationError → Option ErrorDetailsRef
error_details_ref (ApplicationError.validation error) = error.details_ref
error_details_ref (ApplicationError.not_found error) = error.details_ref
error_details_ref (ApplicationError.conflict error) = error.details_ref
error_details_ref (ApplicationError.boundary_violation error) = error.details_ref
error_details_ref (ApplicationError.dependency error) = error.details_ref
error_details_ref (ApplicationError.internal error) = error.details_ref

abbrev pub validation_error : String → Text → ApplicationError
validation_error code message =
    ApplicationError.validation (record { code = code; message = message; details_ref = none })

abbrev pub not_found_error : String → Text → Option ErrorDetailsRef → ApplicationError
not_found_error code message details_ref =
    ApplicationError.not_found
      (record { code = code; message = message; details_ref = details_ref })

abbrev pub conflict_error : String → Text → Option ErrorDetailsRef → ApplicationError
conflict_error code message details_ref =
    ApplicationError.conflict (record { code = code; message = message; details_ref = details_ref })

abbrev pub boundary_violation_error : String → Text → Option ErrorDetailsRef → ApplicationError
boundary_violation_error code message details_ref =
    ApplicationError.boundary_violation
      (record { code = code; message = message; details_ref = details_ref })

abbrev pub dependency_error : String → Text → Bool → Option ErrorDetailsRef → ApplicationError
dependency_error code message retryable details_ref =
    ApplicationError.dependency
      (record { code = code; message = message; details_ref = details_ref; retryable = retryable })

abbrev pub internal_error : String → Text → Bool → Option ErrorDetailsRef → ApplicationError
internal_error code message manual_action_required details_ref = ApplicationError.internal (record {
  code = code;
  message = message;
  details_ref = details_ref;
  manual_action_required = manual_action_required;
})

-- ===== src/Errors.antt =====
-- The structured errors of the domain layer (backend/pkg/errors/errors.go). The message, which is
-- text for people with identifiers printed into it, is left out.
use hopeitworks.Prelude.{String, Bool, true, false}

pub data ErrorCategory : Type 0 where
  not_found validation conflict unauthorized forbidden internal invalid_state : ErrorCategory

pub record DomainError : Type 0 where
  pub category : ErrorCategory
  pub code : String

abbrev pub domain_error : ErrorCategory → String → DomainError
domain_error c k = record { category = c; code = k }

-- The code is the resource's name in upper snake case before `_NOT_FOUND`.
pub data Resource : Type 0 where
  run run_step step story project agent stack epic epic_run project_or_epic hitl_request : Resource

abbrev pub not_found_code : Resource → String
not_found_code run = "RUN_NOT_FOUND"
not_found_code run_step = "RUN STEP_NOT_FOUND"
not_found_code step = "STEP_NOT_FOUND"
not_found_code story = "STORY_NOT_FOUND"
not_found_code project = "PROJECT_NOT_FOUND"
not_found_code agent = "AGENT_NOT_FOUND"
not_found_code stack = "STACK_NOT_FOUND"
not_found_code epic = "EPIC_NOT_FOUND"
not_found_code epic_run = "EPIC_RUN_NOT_FOUND"
not_found_code project_or_epic = "PROJECT OR EPIC_NOT_FOUND"
not_found_code hitl_request = "HITL_REQUEST_NOT_FOUND"

abbrev pub new_not_found : Resource → DomainError
new_not_found r = domain_error not_found (not_found_code r)

abbrev pub new_validation : DomainError
new_validation = domain_error validation "VALIDATION_ERROR"

abbrev pub new_invalid_state : String → DomainError
new_invalid_state code = domain_error invalid_state code

abbrev pub new_internal : DomainError
new_internal = domain_error internal "INTERNAL_ERROR"

-- Go's pair of a value and an error, of which one is used.
pub data Result {ℓ} (A : Type ℓ) : Type ℓ where
  ok : A → Result A
  err : DomainError → Result A

abbrev pub is_ok {ℓ} : {A : Type ℓ} → Result A → Bool
is_ok (ok a) = true
is_ok (err e) = false

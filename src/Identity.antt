-- ===== src/Identity.antt =====
-- The harness identities and the schedule of src/effectprobe/_lost_result.py.
pub mod Distinct
use effect_probe.Prelude.{ℕ, String, [], ◌∷◌, Option, Bool, format, decimal}

pub record OperationId : Type 0 where
  pub value : String

pub record DeliveryId : Type 0 where
  pub value : String

pub record AttemptId : Type 0 where
  pub value : String

pub record TrialId : Type 0 where
  pub value : String

pub record AttemptIdentity : Type 0 where
  pub operation_id : OperationId
  pub trial_id : TrialId
  pub delivery_id : DeliveryId
  pub attempt_id : AttemptId

-- The literals of `AttemptOutcome`; the first two are those of `LostResultOutcome`.
pub data AttemptOutcome : Type 0 where
  provider_result_lost client_result_lost returned : AttemptOutcome

pub record LostResultSchedule : Type 0 where
  pub scope_name : String
  pub boundary_name : String
  pub lost_outcome : AttemptOutcome

abbrev pub provider_result_loss : LostResultSchedule
provider_result_loss = record {
  scope_name = "provider_commit_then_lose_first_result_and_retry_once";
  boundary_name = "provider_result_delivery";
  lost_outcome = provider_result_lost;
}

abbrev pub mcp_client_result_loss : LostResultSchedule
mcp_client_result_loss = record {
  scope_name = "mcp_tool_completion_then_lose_first_client_result_and_retry_once";
  boundary_name = "mcp_client_result_delivery";
  lost_outcome = client_result_lost;
}

unfoldable pub identity_for : OperationId → TrialId → ℕ → AttemptIdentity
identity_for operation_id trial_id ordinal = record {
  operation_id = operation_id;
  trial_id = trial_id;
  delivery_id = record {
    value =
        format
          ("delivery/" ∷ operation_id.value ∷ "/" ∷ trial_id.value ∷ "/" ∷ decimal ordinal ∷ []);
  };
  attempt_id = record {
    value =
        format
          ("attempt/" ∷ operation_id.value ∷ "/" ∷ trial_id.value ∷ "/" ∷ decimal ordinal ∷ []);
  };
}

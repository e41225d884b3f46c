-- ===== src/Tests/Reports/Data.antt =====
-- A small artifact of the keyed mode that is reported, in the form of the payload that
-- src/effectprobe/_mcp_reports.py decodes.
use effect_probe.Prelude.{ℕ, String, List, true, [], ◌∷◌}
use effect_probe.Prelude.Int.{pos}
use effect_probe.Store.{Mode}
use effect_probe.Artifact.{JsonValue, null, bool, int, str, list, dict}
use effect_probe.Report.Encode.{object_of, strings_of, items_of}
use effect_probe.Report.Expected.{expected_clean_results, expected_retry_results}
use effect_probe.Report.Evidence.{baseline_state}
use effect_probe.Report.Seen.{PairScope}

abbrev pub object : List (String × JsonValue) → JsonValue
object fields = dict (object_of fields)

abbrev pub items : List JsonValue → JsonValue
items vs = list (items_of (λ v. v) vs)

abbrev pub digest : String
digest = "0123456789abcdef0123456789abcdef0123456789abcdef0123456789abcdef"

abbrev pub input : JsonValue
input = object (
    ("payment_id", str "payment-1")
    ∷ ("amount_minor_units", int (pos 2500))
    ∷ ("operation_key", str "key-1")
    ∷ [])

abbrev pub scope : PairScope
scope = record {
  refund = record {
    mode = Mode.keyed;
    payment_id = "payment-1";
    amount_minor_units = pos 2500;
    operation_key = "key-1";
  };
  expected_input = input;
  operation_id = "operation-1";
  protocol = "2025-06-18";
}

abbrev receipt : JsonValue
receipt = object (
    ("refund_id", str "refund-1")
    ∷ ("payment_id", str "payment-1")
    ∷ ("amount_minor_units", int (pos 2500))
    ∷ [])

abbrev history : JsonValue
history = items (
    object (
      ("refund_id", str "refund-1")
      ∷ ("payment_id", str "payment-1")
      ∷ ("amount_minor_units", int (pos 2500))
      ∷ ("operation_key", str "key-1")
      ∷ [])
    ∷ [])

abbrev pub observation : JsonValue
observation = object (
    (
      "state",
      object (
          ("payment_id", str "payment-1")
          ∷ ("payment_minor_units", int (pos 10000))
          ∷ ("refunded_minor_units", int (pos 2500))
          ∷ ("key_mapping_count", int (pos 1))
          ∷ []),
    )
    ∷ ("history", history)
    ∷ [])

abbrev pub baseline : JsonValue
baseline = object (("state", baseline_state "payment-1") ∷ ("history", items []) ∷ [])

abbrev attempt_of : String → String → String → String → JsonValue → JsonValue
attempt_of trial_id delivery_id attempt_id outcome result = object (
    (
      "identity",
      object (
          ("operation_id", str "operation-1")
          ∷ ("trial_id", str trial_id)
          ∷ ("delivery_id", str delivery_id)
          ∷ ("attempt_id", str attempt_id)
          ∷ []),
    )
    ∷ (
      "subject_view",
      object (("input", input) ∷ ("outcome", str outcome) ∷ ("returned_result", result) ∷ []),
    )
    ∷ ("observer_truth", observation)
    ∷ [])

abbrev delivery : ℕ → String → JsonValue
delivery ordinal request_id = object (
    ("ordinal", int (pos ordinal))
    ∷ ("mcp_request_id", str request_id)
    ∷ ("operation_key", str "key-1")
    ∷ [])

abbrev cleanup : JsonValue
cleanup = object (
    ("status", str "pass")
    ∷ ("resource_closed", bool true)
    ∷ ("database_removed", bool true)
    ∷ ("protocol_version", str "2025-06-18")
    ∷ [])

abbrev clean : JsonValue
clean = object (
    ("trial_id", str "primary/clean")
    ∷ ("baseline", baseline)
    ∷ ("attempt", attempt_of "primary/clean" "delivery-1" "attempt-1" "returned" receipt)
    ∷ ("history_delta", history)
    ∷ ("transport_truth", items (delivery 1 "request-1" ∷ []))
    ∷ ("cleanup", cleanup)
    ∷ [])

abbrev harness : JsonValue
harness = object (
    ("boundary_name", str "mcp_client_result_delivery")
    ∷ ("injected_attempt_id", str "attempt-2")
    ∷ ("reached_attempt_ids", strings_of ("attempt-2" ∷ "attempt-3" ∷ []))
    ∷ ("undelivered_result", receipt)
    ∷ [])

abbrev perturbed : JsonValue
perturbed = object (
    ("operation_id", str "operation-1")
    ∷ ("trial_id", str "primary/perturbed")
    ∷ ("baseline", baseline)
    ∷ (
      "attempts",
      items (
          attempt_of "primary/perturbed" "delivery-2" "attempt-2" "client_result_lost" null
          ∷ attempt_of "primary/perturbed" "delivery-3" "attempt-3" "returned" receipt
          ∷ []),
    )
    ∷ ("subject_result", receipt)
    ∷ ("harness_truth", harness)
    ∷ ("transport_truth", items (delivery 1 "request-2" ∷ delivery 2 "request-3" ∷ []))
    ∷ ("cleanup", cleanup)
    ∷ [])

abbrev pub pair : JsonValue
pair = object (
    ("pair_id", str "primary")
    ∷ ("clean_results", expected_clean_results)
    ∷ ("retry_results", expected_retry_results Mode.keyed)
    ∷ ("errors", items [])
    ∷ ("clean", clean)
    ∷ ("perturbed", perturbed)
    ∷ [])

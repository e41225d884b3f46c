-- ===== src/Report/Evidence.antt =====
-- The checks of one trial's evidence (src/effectprobe/_mcp_reports.py, from `_cleanup` to
-- `_validate_baseline`).
pub mod Histories
pub mod Kept
use effect_probe.Prelude.{
  ℕ, zero, suc, ◌-◌, String, Bool, true, false, ◌&&◌, not, List, [], ◌∷◌, length, Option, some,
  none, format, decimal, leb, ◌==◌, str_eq, if◌then◌else◌,
}
use effect_probe.Prelude.Int.{ℤ, pos, ◌+ℤ◌}
use effect_probe.Exception.{other, M, pure, raise, ◌>>=◌, ◌>>◌}
use effect_probe.Store.{Mode}
use effect_probe.Artifact.{
  JsonValue, null, int, str, dict, JsonItems, nil, item, JsonFields, items_length, require_object,
  require_list, require_string,
}
use effect_probe.Artifact.Equality.{json_eq, items_eq}
use effect_probe.Artifact.Envelope.{subscript}
use effect_probe.Artifact.Objects.{member}
use effect_probe.Report.Checks.{
  at_key, at_index, expect, expect_that, all_of, field_is, string_at, bool_at, nullable_string_at,
  object_at, list_at, all_distinct,
}
use effect_probe.Report.Encode.{object_of}

abbrev key_eq : Option String → String → Bool
key_eq none s = false
key_eq (some r) s = str_eq r s

-- What `_cleanup` returns.
pub record CleanupEvidence : Type 0 where
  pub status : String
  pub resource_closed : Bool
  pub database_removed : Bool

abbrev pub take_items : ℕ → JsonItems → JsonItems
take_items zero items = nil
take_items (suc n) nil = nil
take_items (suc n) (item v rest) = item v (take_items n rest)

abbrev pub get_item : JsonItems → ℕ → Option JsonValue
get_item nil i = none
get_item (item v rest) zero = some v
get_item (item v rest) (suc i) = get_item rest i

-- `expected_count * amount_minor_units`
unfoldable pub times : ℕ → ℤ → ℤ
times zero amount = pos 0
times (suc n) amount = times n amount +ℤ amount

-- What `_attempt` returns.
pub record ParsedAttempt : Type 0 where
  pub identity : JsonFields
  pub outcome : String
  pub returned_result : JsonValue
  pub observer_truth : JsonValue

abbrev fixture_balance : ℤ
fixture_balance = pos 10000

-- The registered refund that the evidence has to be about.
pub record RefundScope : Type 0 where
  pub mode : Mode
  pub payment_id : String
  pub amount_minor_units : ℤ
  pub operation_key : String

abbrev event_key : RefundScope → Mode → JsonValue
event_key scope Mode.keyed = str scope.operation_key
event_key scope Mode.unsafe = null

-- `1 if mode == "keyed" and expected_count else 0`
abbrev key_mappings : Mode → ℕ → ℤ
key_mappings Mode.keyed zero = pos 0
key_mappings Mode.keyed (suc n) = pos 1
key_mappings Mode.unsafe n = pos 0

abbrev pub baseline_state : String → JsonValue
baseline_state payment_id = dict (
    object_of (
      ("payment_id", str payment_id)
      ∷ ("payment_minor_units", int fixture_balance)
      ∷ ("refunded_minor_units", int (pos 0))
      ∷ ("key_mapping_count", int (pos 0))
      ∷ []))

module _ {S : Type 0} where
  abbrev pub item_or_error : Option JsonValue → M S JsonValue
  item_or_error none =
      raise (other (record { type_name = "IndexError"; text = "list index out of range" }))
  item_or_error (some v) = pure v

  -- `items[index]`
  unfoldable pub subscript_item : JsonItems → ℕ → M S JsonValue
  subscript_item items index = item_or_error (get_item items index)

  -- `_cleanup`
  unfoldable pub decode_cleanup : JsonValue → String → String → M S CleanupEvidence
  decode_cleanup v path protocol = do
    object ← require_object v path
    status ← string_at object "status" (at_key path "status")
    closed ← bool_at object "resource_closed" (at_key path "resource_closed")
    removed ← bool_at object "database_removed" (at_key path "database_removed")
    recorded ← nullable_string_at object "protocol_version" (at_key path "protocol_version")
    expect (str_eq status "pass" && closed && removed && key_eq recorded protocol)
        (format (path ∷ " does not prove completed cleanup and protocol negotiation" ∷ []))
    pure (record { status = status; resource_closed = closed; database_removed = removed })

  -- `_history_delta`
  unfoldable pub history_growth : JsonValue → JsonValue → String → M S ℕ
  history_growth baseline final path = do
    earlier ← require_object baseline (at_key path "baseline")
    before ← list_at earlier "history" (at_key path "baseline.history")
    later ← require_object final (at_key path "final")
    after ← list_at later "history" (at_key path "final.history")
    expect
        (leb (items_length before) (items_length after)
          && items_eq (take_items (items_length before) after) before)
        (format (path ∷ " is not append-only" ∷ []))
    pure (items_length after - items_length before)

  -- `_attempt`
  unfoldable pub decode_attempt :
      JsonValue → String → String → JsonValue → String → M S ParsedAttempt
  decode_attempt expected_input expected_operation_id expected_trial_id v path = do
    object ← require_object v path
    identity ← object_at object "identity" (at_key path "identity")
    expect_that
        (all_of (
          field_is identity "operation_id" (str expected_operation_id)
          ∷ field_is identity "trial_id" (str expected_trial_id)
          ∷ []))
        (format (path ∷ " changes logical operation or trial identity" ∷ []))
    delivery_id ← string_at identity "delivery_id" (at_key path "identity.delivery_id")
    attempt_id ← string_at identity "attempt_id" (at_key path "identity.attempt_id")
    expect (not (str_eq delivery_id attempt_id))
        (format (path ∷ " aliases delivery and attempt identity" ∷ []))
    view ← object_at object "subject_view" (at_key path "subject_view")
    expect_that (field_is view "input" expected_input)
        (format (path ∷ " changes the subject-visible input" ∷ []))
    outcome ← string_at view "outcome" (at_key path "subject_view.outcome")
    returned_result ← subscript view "returned_result"
    observer_truth ← subscript object "observer_truth"
    pure (record {
      identity = identity;
      outcome = outcome;
      returned_result = returned_result;
      observer_truth = observer_truth;
    })

  -- The loop of `_transport`, from an index on.
  unfoldable pub request_ids_of : String → List String → String → JsonItems → ℕ → M S (List String)
  request_ids_of operation_key forbidden path nil index = pure []
  request_ids_of operation_key forbidden path (item v rest) index = do
    object ← require_object v (at_index path index)
    expect_that (field_is object "ordinal" (int (pos (suc index))))
        (format (at_index path index ∷ " has an unexpected ordinal" ∷ []))
    request_id ← string_at object "mcp_request_id" (at_key (at_index path index) "mcp_request_id")
    expect (not (member request_id forbidden))
        (format (at_index path index ∷ " aliases a semantic identity" ∷ []))
    expect_that (field_is object "operation_key" (str operation_key))
        (format (at_index path index ∷ " changes the operation key" ∷ []))
    request_ids ← request_ids_of operation_key forbidden path rest (suc index)
    pure (request_id ∷ request_ids)

  -- `_transport`
  unfoldable pub transport : JsonValue → String → ℕ → String → List String → M S (List String)
  transport v path expected_count operation_key forbidden = do
    items ← require_list v path
    expect (items_length items == expected_count)
        (format (path ∷ " has an unexpected delivery count" ∷ []))
    request_ids ← request_ids_of operation_key forbidden path items 0
    expect (all_distinct request_ids) (format (path ∷ " aliases MCP request identities" ∷ []))
    pure request_ids

  -- The loop of `_validate_observed_refunds`.
  unfoldable pub refund_ids_of : RefundScope → String → JsonItems → ℕ → M S (List String)
  refund_ids_of scope path nil index = pure []
  refund_ids_of scope path (item v rest) index = do
    event ← require_object v (at_index path index)
    expect_that
        (all_of (
          field_is event "payment_id" (str scope.payment_id)
          ∷ field_is event "amount_minor_units" (int scope.amount_minor_units)
          ∷ field_is event "operation_key" (event_key scope scope.mode)
          ∷ []))
        (format (at_index path index ∷ " is outside the registered refund evidence" ∷ []))
    refund_id ← string_at event "refund_id" (at_key (at_index path index) "refund_id")
    refund_ids ← refund_ids_of scope path rest (suc index)
    pure (refund_id ∷ refund_ids)

  -- `_validate_observed_refunds`
  unfoldable pub validate_observed_refunds : RefundScope → JsonValue → String → ℕ → M S Unit
  validate_observed_refunds scope observation path expected_count = do
    object ← require_object observation path
    history ← list_at object "history" (at_key path "history")
    expect (items_length history == expected_count)
        (format (path ∷ " has an unexpected committed history count" ∷ []))
    refund_ids ← refund_ids_of scope (at_key path "history") history 0
    expect (all_distinct refund_ids) (format (path ∷ " reuses committed-effect identity" ∷ []))
    state ← object_at object "state" (at_key path "state")
    expect_that
        (all_of (
          field_is state "payment_id" (str scope.payment_id)
          ∷ field_is state "payment_minor_units" (int fixture_balance)
          ∷ field_is state "refunded_minor_units"
              (int (times expected_count scope.amount_minor_units))
          ∷ field_is state "key_mapping_count" (int (key_mappings scope.mode expected_count))
          ∷ []))
        (format (path ∷ " state and committed history disagree" ∷ []))

  -- `left[key] == right[key]`
  unfoldable pub fields_agree : JsonFields → JsonFields → String → M S Bool
  fields_agree left right key = do
    v ← subscript left key
    w ← subscript right key
    pure (json_eq v w)

  -- Whether a receipt and an event are of the same refund.
  unfoldable pub same_refund : JsonFields → JsonFields → M S Bool
  same_refund receipt event = all_of (
      fields_agree receipt event "refund_id"
      ∷ fields_agree receipt event "payment_id"
      ∷ fields_agree receipt event "amount_minor_units"
      ∷ [])

  -- `_validate_receipt_matches_history`
  unfoldable pub validate_receipt_matches_history : JsonValue → JsonValue → String → ℕ → M S Unit
  validate_receipt_matches_history receipt observation path event_index = do
    object ← require_object receipt (at_key path "receipt")
    observed ← require_object observation (at_key path "observation")
    history ← list_at observed "history" (at_key path "observation.history")
    v ← subscript_item history event_index
    event ← require_object v (at_index (at_key path "observation.history") event_index)
    expect_that (same_refund object event)
        (format (path ∷ " returned result and committed-effect evidence disagree" ∷ []))

  -- `_validate_baseline`
  unfoldable pub validate_baseline : JsonValue → String → String → M S Unit
  validate_baseline v path payment_id = do
    object ← require_object v path
    history ← list_at object "history" (at_key path "history")
    expect (items_eq history nil) (format (path ∷ " history is not fresh" ∷ []))
    expect_that (field_is object "state" (baseline_state payment_id))
        (format (path ∷ " state is outside the registered fixture" ∷ []))

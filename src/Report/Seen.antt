-- ===== src/Report/Seen.antt =====
-- What the calls of `_validate_pair` of src/effectprobe/_mcp_reports.py for one artifact share.
use effect_probe.Prelude.{ℕ, String, Bool, true, false, ◌&&◌, List, [], ◌∷◌, ◌++◌, str_eq}
use effect_probe.Exception.{other, M, pure, raise}
use effect_probe.Store.{Mode}
use effect_probe.Artifact.{JsonValue, null}
use effect_probe.Report.Evidence.{ParsedAttempt, RefundScope}

-- What the calls for one artifact have seen.
pub record Seen : Type 0 where
  pub trial_ids : List String
  pub delivery_ids : List String
  pub attempt_ids : List String
  pub request_ids : List String

abbrev pub nothing_seen : Seen
nothing_seen = record { trial_ids = []; delivery_ids = []; attempt_ids = []; request_ids = [] }

-- The parameters that are the same for all pairs of an artifact.
pub record PairScope : Type 0 where
  pub refund : RefundScope
  pub expected_input : JsonValue
  pub operation_id : String
  pub protocol : String

-- The value of a `None` test on JSON.
abbrev pub is_null : JsonValue → Bool
is_null null = true
is_null _ = false

abbrev pub strings_eq : List String → List String → Bool
strings_eq [] [] = true
strings_eq (a ∷ left) (b ∷ right) = str_eq a b && strings_eq left right
strings_eq _ _ = false

-- `recorded_request_ids.extend(...)`
abbrev pub record_requests : List String → M Seen Unit
record_requests ids seen = pure tt (record seen { request_ids = seen.request_ids ++ ids })

abbrev pub all_seen : M Seen Seen
all_seen seen = pure seen seen

-- `seen_trial_ids.update(...)` and so on.
abbrev pub mark : List String → List String → List String → M Seen Unit
mark trial_ids delivery_ids attempt_ids seen = pure tt (record seen {
  trial_ids = seen.trial_ids ++ trial_ids;
  delivery_ids = seen.delivery_ids ++ delivery_ids;
  attempt_ids = seen.attempt_ids ++ attempt_ids;
})

-- `parsed_attempts[0]` and `parsed_attempts[1]`
abbrev pub first_two : List ParsedAttempt → M Seen (ParsedAttempt × ParsedAttempt)
first_two (first ∷ second ∷ rest) = pure (first, second)
first_two _ = raise (other (record { type_name = "IndexError"; text = "list index out of range" }))

abbrev pub final_count : Mode → ℕ
final_count Mode.keyed = 1
final_count Mode.unsafe = 2

-- `0 if mode == "keyed" else 1`: the growth between the attempts, and the event of the receipt.
abbrev pub incremental : Mode → ℕ
incremental Mode.keyed = 0
incremental Mode.unsafe = 1

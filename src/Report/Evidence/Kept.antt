-- ===== src/Report/Evidence/Kept.antt =====
-- The checks of a trial's evidence (src/effectprobe/_mcp_reports.py, from `_cleanup` to
-- `_validate_baseline`) change no state.
use effect_probe.Prelude.{ℕ, suc, String, List, Option, none, some}
use effect_probe.Exception.Keeps.{Keeps, Keeps-pure, Keeps-raise, Keeps-bind}
use effect_probe.Artifact.{JsonValue, JsonItems, nil, item, JsonFields}
use effect_probe.Report.Checks.Kept.{
  subscript-Keeps, require_object-Keeps, require_list-Keeps, require_string-Keeps, expect-Keeps,
  expect_that-Keeps, all_of-Keeps, field_is-Keeps, expect_field-Keeps, string_at-Keeps,
  bool_at-Keeps, nullable_string_at-Keeps, object_at-Keeps, list_at-Keeps, each-Keeps,
}
use effect_probe.Report.Decoders.{strings}
use effect_probe.Report.Evidence.{
  RefundScope, item_or_error, get_item, subscript_item, decode_cleanup, history_growth,
  decode_attempt, request_ids_of, transport, refund_ids_of, validate_observed_refunds, fields_agree,
  same_refund, validate_receipt_matches_history, validate_baseline,
}

module _ {S : Type 0} (I : S → Type 0) where
  item_or_error-Keeps : (o : Option JsonValue) → Keeps I (item_or_error o)
  item_or_error-Keeps none = Keeps-raise _
  item_or_error-Keeps (some v) = Keeps-pure v

  pub subscript_item-Keeps : (items : JsonItems) (index : ℕ) → Keeps I (subscript_item items index)
  unfolding subscript_item
  subscript_item-Keeps items index = item_or_error-Keeps (get_item items index)

  pub strings-Keeps : (v : JsonValue) (path : String) → Keeps I (strings v path)
  unfolding strings
  strings-Keeps v path =
      Keeps-bind (require_list-Keeps I v path)
        (λ items. each-Keeps I _ (require_string-Keeps I) items path 0)

  pub decode_cleanup-Keeps :
      (v : JsonValue) (path protocol : String) → Keeps I (decode_cleanup v path protocol)
  unfolding decode_cleanup
  decode_cleanup-Keeps v path protocol = Keeps-bind (require_object-Keeps I v path) (λ object.
      Keeps-bind (string_at-Keeps I object _ _) (λ _. Keeps-bind (bool_at-Keeps I object _ _) (λ _.
        Keeps-bind (bool_at-Keeps I object _ _) (λ _.
          Keeps-bind (nullable_string_at-Keeps I object _ _)
            (λ _. Keeps-bind (expect-Keeps I _ _) (λ _. Keeps-pure _))))))

  pub history_growth-Keeps :
      (baseline final : JsonValue) (path : String) → Keeps I (history_growth baseline final path)
  unfolding history_growth
  history_growth-Keeps baseline final path =
      Keeps-bind (require_object-Keeps I baseline _) (λ earlier.
        Keeps-bind (list_at-Keeps I earlier _ _) (λ _.
          Keeps-bind (require_object-Keeps I final _) (λ later.
            Keeps-bind (list_at-Keeps I later _ _)
              (λ _. Keeps-bind (expect-Keeps I _ _) (λ _. Keeps-pure _)))))

  pub decode_attempt-Keeps :
      (input : JsonValue) (operation_id trial_id : String) (v : JsonValue) (path : String)
      → Keeps I (decode_attempt input operation_id trial_id v path)
  unfolding decode_attempt
  decode_attempt-Keeps input operation_id trial_id v path =
      Keeps-bind (require_object-Keeps I v path) (λ object.
        Keeps-bind (object_at-Keeps I object _ _) (λ identity.
          Keeps-bind
            (expect_that-Keeps I _ _
              (all_of-Keeps I _ (field_is-Keeps I _ _ _, (field_is-Keeps I _ _ _, tt))))
            (λ _. Keeps-bind (string_at-Keeps I identity _ _) (λ _.
              Keeps-bind (string_at-Keeps I identity _ _) (λ _.
                Keeps-bind (expect-Keeps I _ _) (λ _.
                  Keeps-bind (object_at-Keeps I object _ _) (λ view.
                    Keeps-bind (expect_field-Keeps I view _ _ _) (λ _.
                      Keeps-bind (string_at-Keeps I view _ _) (λ _.
                        Keeps-bind (subscript-Keeps I view _) (λ _.
                          Keeps-bind (subscript-Keeps I object _) (λ _. Keeps-pure _)))))))))))

  request_ids_of-Keeps :
      (key : String) (forbidden : List String) (path : String) (items : JsonItems) (index : ℕ)
      → Keeps I (request_ids_of key forbidden path items index)
  unfolding request_ids_of
  request_ids_of-Keeps key forbidden path nil index = Keeps-pure _
  request_ids_of-Keeps key forbidden path (item v rest) index =
      Keeps-bind (require_object-Keeps I v _) (λ object.
        Keeps-bind (expect_field-Keeps I object _ _ _) (λ _.
          Keeps-bind (string_at-Keeps I object _ _) (λ _. Keeps-bind (expect-Keeps I _ _) (λ _.
            Keeps-bind (expect_field-Keeps I object _ _ _) (λ _.
              Keeps-bind (request_ids_of-Keeps key forbidden path rest (suc index))
                (λ _. Keeps-pure _))))))

  pub transport-Keeps :
      (v : JsonValue) (path : String) (count : ℕ) (key : String) (forbidden : List String)
      → Keeps I (transport v path count key forbidden)
  unfolding transport
  transport-Keeps v path count key forbidden = Keeps-bind (require_list-Keeps I v path) (λ items.
      Keeps-bind (expect-Keeps I _ _) (λ _.
        Keeps-bind (request_ids_of-Keeps key forbidden path items 0)
          (λ _. Keeps-bind (expect-Keeps I _ _) (λ _. Keeps-pure _))))

  refund_ids_of-Keeps :
      (scope : RefundScope) (path : String) (items : JsonItems) (index : ℕ)
      → Keeps I (refund_ids_of scope path items index)
  unfolding refund_ids_of
  refund_ids_of-Keeps scope path nil index = Keeps-pure _
  refund_ids_of-Keeps scope path (item v rest) index =
      Keeps-bind (require_object-Keeps I v _) (λ event.
        Keeps-bind
          (expect_that-Keeps I _ _ (
            all_of-Keeps I _
              (field_is-Keeps I _ _ _, (field_is-Keeps I _ _ _, (field_is-Keeps I _ _ _, tt)))))
          (λ _. Keeps-bind (string_at-Keeps I event _ _) (λ _.
            Keeps-bind (refund_ids_of-Keeps scope path rest (suc index)) (λ _. Keeps-pure _))))

  pub observed_refunds-Keeps :
      (scope : RefundScope) (observation : JsonValue) (path : String) (count : ℕ)
      → Keeps I (validate_observed_refunds scope observation path count)
  unfolding validate_observed_refunds
  observed_refunds-Keeps scope observation path count =
      Keeps-bind (require_object-Keeps I observation path) (λ object.
        Keeps-bind (list_at-Keeps I object _ _) (λ history. Keeps-bind (expect-Keeps I _ _) (λ _.
          Keeps-bind (refund_ids_of-Keeps scope _ history 0) (λ _.
            Keeps-bind (expect-Keeps I _ _) (λ _.
              Keeps-bind (object_at-Keeps I object _ _) (λ state. expect_that-Keeps I _ _ (
                all_of-Keeps I _ (
                  field_is-Keeps I _ _ _,
                  (field_is-Keeps I _ _ _, (field_is-Keeps I _ _ _, (field_is-Keeps I _ _ _, tt))),
                ))))))))

  fields_agree-Keeps :
      (left right : JsonFields) (key : String) → Keeps I (fields_agree left right key)
  unfolding fields_agree
  fields_agree-Keeps left right key =
      Keeps-bind (subscript-Keeps I left key)
        (λ _. Keeps-bind (subscript-Keeps I right key) (λ _. Keeps-pure _))

  pub same_refund-Keeps : (receipt event : JsonFields) → Keeps I (same_refund receipt event)
  unfolding same_refund
  same_refund-Keeps receipt event = all_of-Keeps I _ (
    fields_agree-Keeps receipt event _,
    (fields_agree-Keeps receipt event _, (fields_agree-Keeps receipt event _, tt)),
  )

  pub receipt-Keeps :
      (receipt observation : JsonValue) (path : String) (index : ℕ)
      → Keeps I (validate_receipt_matches_history receipt observation path index)
  unfolding validate_receipt_matches_history
  receipt-Keeps receipt observation path index =
      Keeps-bind (require_object-Keeps I receipt _) (λ object.
        Keeps-bind (require_object-Keeps I observation _) (λ observed.
          Keeps-bind (list_at-Keeps I observed _ _) (λ history.
            Keeps-bind (subscript_item-Keeps history index) (λ v.
              Keeps-bind (require_object-Keeps I v _)
                (λ event. expect_that-Keeps I _ _ (same_refund-Keeps object event))))))

  pub validate_baseline-Keeps :
      (v : JsonValue) (path payment_id : String) → Keeps I (validate_baseline v path payment_id)
  unfolding validate_baseline
  validate_baseline-Keeps v path payment_id = Keeps-bind (require_object-Keeps I v path) (λ object.
      Keeps-bind (list_at-Keeps I object _ _)
        (λ _. Keeps-bind (expect-Keeps I _ _) (λ _. expect_field-Keeps I object _ _ _)))

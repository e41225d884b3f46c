-- ===== src/Refund/Idempotence.antt =====
-- What a lost result and one retry commit (src/effectprobe/_refund_comparison.py,
-- FakeRefundProvider and the two subjects).
use effect_probe.Prelude.{
  String, ◌≡◌, ◌≢◌, refl, true, false, List, [], ◌∷◌, ◌++◌, Option, none, some, arith, str_eq_iff,
  Option-cases, inl, inr,
}
use mathlib.Core.List.{append_assoc}
use effect_probe.Prelude.Int.{◌+ℤ◌}
use effect_probe.Identity.{OperationId, TrialId, LostResultSchedule}
use effect_probe.Exception.{value, M, ◌>>=◌}
use effect_probe.Exception.Triple.{Leaves}
use effect_probe.LostResult.{
  RunEvidence, invoke, delivery_for, attempt, after_first, record_baseline, finish_second,
  retry_once, run_commit_then_lose_first_provider_result,
}
use effect_probe.Refund.Model.{RefundCommand, RefundEvent, RefundReceipt, RefundObservation}
use effect_probe.Refund.Provider.{
  KeyIndex, lookup, insert, FakeRefundProvider, next_refund_id, store_receipt, refund, observe,
  RefundWorld, invoke_subject,
}

lookup-insert :
    (key : String) (r : RefundReceipt) (index : KeyIndex) → lookup key (insert key r index) ≡ some r
unfolding lookup insert
lookup-insert key r [] = ground (arith, str_eq_iff key key)
lookup-insert key r ((k, s) ∷ rest) = ground (arith, str_eq_iff k key, lookup-insert key r rest)

-- The event of a command at a provider.
abbrev pub event_of : RefundCommand → Option String → FakeRefundProvider → RefundEvent
event_of command key p = record {
  refund_id = next_refund_id p;
  payment_id = command.payment_id;
  amount_minor_units = command.amount_minor_units;
  operation_key = key;
}

abbrev pub receipt_of : RefundCommand → FakeRefundProvider → RefundReceipt
receipt_of command p = record {
  refund_id = next_refund_id p;
  payment_id = command.payment_id;
  amount_minor_units = command.amount_minor_units;
}

-- The provider behind a new commit.
abbrev pub committed : RefundCommand → Option String → FakeRefundProvider → FakeRefundProvider
committed command key p = record {
  refunded_minor_units = p.refunded_minor_units +ℤ command.amount_minor_units;
  history = p.history ++ (event_of command key p ∷ []);
  key_index = store_receipt key (receipt_of command p) p.key_index;
}

refund-unkeyed :
    (command : RefundCommand) (p : FakeRefundProvider)
    → refund command none p ≡ (receipt_of command p, committed command none p)
unfolding refund
refund-unkeyed command p = refl

module _ (key : String) (p : FakeRefundProvider) where
  refund-fresh :
      (command : RefundCommand)
      → lookup key p.key_index ≡ none
      → refund command (some key) p ≡ (receipt_of command p, committed command (some key) p)
  unfolding refund
  refund-fresh command fresh = rw (fresh, refund)

  refund-stored :
      (command : RefundCommand) (r : RefundReceipt)
      → lookup key p.key_index ≡ some r
      → refund command (some key) p ≡ (r, p)
  unfolding refund
  refund-stored command r stored = rw (stored, refund)

  refund-again :
      (command command' : RefundCommand)
      → refund command' (some key) (committed command (some key) p)
        ≡ (receipt_of command p, committed command (some key) p)
  unfolding refund
  refund-again command command' = rw (lookup-insert key (receipt_of command p) p.key_index, refund)

  -- A second refund under the same key, whatever payment and amount it asks for, returns the
  -- receipt of the first and leaves the provider unchanged, whatever the provider had stored.
  pub refund_idempotent :
      (command command' : RefundCommand)
      → refund command' (some key) (refund command (some key) p).1 ≡ refund command (some key) p
  refund_idempotent command command' = elim (Option-cases (lookup key p.key_index)) [
    | inl fresh ↦ rw (refund-fresh command fresh) (refund-again command command')
    | inr (r, stored) ↦ rw (refund-stored command r stored) (refund-stored command' r stored)
  ]

abbrev pub observe_world : M RefundWorld RefundObservation
observe_world w = (value (observe w.provider), w)

-- What a run has committed: the world it began in, and the evidence and the world it ended with.
pub record Committed (events : List RefundEvent) (receipt : RefundReceipt) (w : RefundWorld)
    (ev : RunEvidence RefundReceipt RefundObservation) (w' : RefundWorld) : Type 0 where
  pub result : ev.subject_result ≡ receipt
  pub withheld : ev.harness.undelivered_result ≢ none
  pub history : w'.provider.history ≡ w.provider.history ++ events
  pub received : w'.received_receipts ≡ w.received_receipts ++ (receipt ∷ [])

module _ (operation_id : OperationId) (trial_id : TrialId) (schedule : LostResultSchedule)
    (command : RefundCommand) (p : FakeRefundProvider) (received : List RefundReceipt) where
  -- For a keyed refund subject whose key the provider has not stored, the run of the lost-result
  -- schedule returns, commits exactly one event, returns the receipt of that event, and adds its
  -- amount to the total once.
  pub keyed_retry :
      lookup command.operation_key p.key_index ≡ none
      → let w : RefundWorld = record { provider = p; keyed = true; received_receipts = received } in
        Leaves
          (λ ev w'.
            Committed
              (event_of command (some command.operation_key) p ∷ [])
              (receipt_of command p)
              w
              ev
              w'
            × (w'.provider.refunded_minor_units
                ≡ p.refunded_minor_units +ℤ command.amount_minor_units))
          (λ w'. ⊥)
          (run_commit_then_lose_first_provider_result operation_id
            (invoke_subject command)
            observe_world
            trial_id
            none
            schedule
            w)
  unfolding run_commit_then_lose_first_provider_result retry_once attempt after_first
      record_baseline finish_second delivery_for invoke invoke_subject ◌>>=◌
  keyed_retry fresh =
      rw
        (
          refund-fresh command.operation_key p command fresh,
          run_commit_then_lose_first_provider_result,
          refund-again command.operation_key p command command,
        )
        (record { result = refl; withheld = λ e. cc e; history = refl; received = refl }, refl)

  -- For a refund subject that ignores its key, the run of the lost-result schedule returns,
  -- commits two events, returns the receipt of the second, and adds the amount to the total twice.
  pub unsafe_retry :
      let w : RefundWorld = record { provider = p; keyed = false; received_receipts = received } in
      Leaves
        (λ ev w'.
          Committed
            (event_of command none p ∷ event_of command none (committed command none p) ∷ [])
            (receipt_of command (committed command none p))
            w
            ev
            w'
          × (w'.provider.refunded_minor_units
              ≡ p.refunded_minor_units +ℤ command.amount_minor_units +ℤ command.amount_minor_units))
        (λ w'. ⊥)
        (run_commit_then_lose_first_provider_result operation_id
          (invoke_subject command)
          observe_world
          trial_id
          none
          schedule
          w)
  unfolding run_commit_then_lose_first_provider_result retry_once attempt after_first
      record_baseline finish_second delivery_for invoke invoke_subject refund ◌>>=◌
  unsafe_retry = (
    record {
      result = refl;
      withheld = λ e. cc e;
      history = append_assoc p.history (event_of command none p ∷ []) _;
      received = refl;
    },
    refl,
  )

-- ===== src/Tests/Transactions.antt =====
-- The theorems on the refund store, at a new database and one keyed refund.
use effect_probe.Prelude.{ℕ, ◌≡◌, refl, ◌⊎◌, ◌↔◌, some, [], ◌∷◌, ◌++◌, decimal}
use effect_probe.Prelude.Int.{pos, ◌+ℤ◌, ◌≤ℤ◌}
use effect_probe.Exception.{Exc, value, raised, type_name, ◌>>=◌}
use effect_probe.Kernel.Types.{SurfaceObservation}
use effect_probe.Refund.Model
use effect_probe.Refund.Model.{RefundReceipt, RefundState}
use effect_probe.Store.{
  McpRefundEvent, Database, Mode, initialize_refund_database, transaction, delivery_row,
  select_receipt, select_payment, insert_event, update_payment, insert_receipt, record_refund,
  refund_payment, commit_new, commit_refund, observe_refunds,
}
use effect_probe.Store.Commits.{delivered, commit_refund-again, commit_refund-appends}
use effect_probe.Store.Refusals.{IsRefused, commit_refund-IsRefused_iff}
use effect_probe.Store.Balance.{
  total_from, IsLedger, commit_refund-IsLedger, initialize_refund_database-IsLedger,
  observe_refunds-IsLedger,
}

-- Opening this opens every operation of the store.
store_open : ℕ
unfolding transaction select_receipt select_payment insert_event update_payment insert_receipt
    record_refund refund_payment commit_new commit_refund observe_refunds ◌>>=◌ ◌+ℤ◌ decimal
store_open = 0

-- One keyed refund in a new database.
one_refund :
    (r : RefundReceipt) × (db : Database) × (commit_refund Mode.keyed Model.payment_id
        (pos 2500)
        "key"
        "request/1"
        7
        initialize_refund_database
      ≡ (value r, db))
unfolding store_open
one_refund = (_, _, refl)

commit_refund-IsLedger_example :
    IsLedger
      (commit_refund Mode.unsafe Model.payment_id
        (pos 2500)
        "key"
        "request/1"
        7
        initialize_refund_database).1
commit_refund-IsLedger_example =
    commit_refund-IsLedger Mode.unsafe Model.payment_id (pos 2500) "key" "request/1" 7
      initialize_refund_database initialize_refund_database-IsLedger

commit_refund-IsRefused_iff_example :
    ((x : Exc) × (type_name x ≡ "ValueError")
      × (commit_refund Mode.unsafe Model.payment_id
            (pos 20000)
            "key"
            "request/1"
            7
            initialize_refund_database
          ≡ (raised x, initialize_refund_database)))
    ↔ (IsRefused Mode.unsafe Model.payment_id (pos 20000) "key" initialize_refund_database
        × (initialize_refund_database ≡ initialize_refund_database))
commit_refund-IsRefused_iff_example =
    commit_refund-IsRefused_iff Mode.unsafe Model.payment_id (pos 20000) "key" "request/1" 7
      initialize_refund_database initialize_refund_database

commit_refund-again_example :
    commit_refund Mode.keyed "payment/other" (pos 9) "key" "request/2" 8 one_refund.1
    ≡ (value one_refund.0, delivered "request/2" "key" 8 one_refund.1)
commit_refund-again_example =
    commit_refund-again Model.payment_id (pos 2500) "key" "request/1" 7 initialize_refund_database
      one_refund.2 "payment/other" (pos 9) "request/2" 8

commit_refund-appends_example :
    (one_refund.1.mcp_deliveries
      ≡ initialize_refund_database.mcp_deliveries
        ++ (delivery_row "request/1" "key" 7 initialize_refund_database ∷ []))
    × (((one_refund.1.refund_events ≡ initialize_refund_database.refund_events)
          × (Mode.keyed ≡ Mode.keyed)
          × (select_receipt "key" initialize_refund_database.keyed_receipts ≡ some one_refund.0))
        ⊎ ((one_refund.1.refund_events
              ≡ initialize_refund_database.refund_events
                ++ (record {
                  refund_id = one_refund.0.refund_id;
                  payment_id = Model.payment_id;
                  amount_minor_units = pos 2500;
                  operation_key = some "key";
                }
                    ∷ []))
            × (one_refund.0.payment_id ≡ Model.payment_id)
            × (one_refund.0.amount_minor_units ≡ pos 2500)))
commit_refund-appends_example =
    commit_refund-appends Mode.keyed Model.payment_id (pos 2500) "key" "request/1" 7
      initialize_refund_database one_refund.2

observe_refunds-IsLedger_example :
    (observation : SurfaceObservation RefundState McpRefundEvent) × (observe_refunds
        initialize_refund_database
      ≡ (value observation, initialize_refund_database))
    × (observation.state.refunded_minor_units
        ≡ total_from (pos 0) Model.payment_id observation.history)
    × (observation.state.refunded_minor_units ≤ℤ observation.state.payment_minor_units)
unfolding select_payment
observe_refunds-IsLedger_example =
    observe_refunds-IsLedger initialize_refund_database
      (record {
        payment_id = Model.payment_id;
        payment_minor_units = Model.payment_minor_units;
        refunded_minor_units = pos 0;
      })
      initialize_refund_database-IsLedger refl

-- ===== src/Store.antt =====
-- The tables and the transactions of src/effectprobe/_mcp_refund_store.py.
--
-- A database is the list of rows of each table. The SQL statements of the source are read as what
-- they say of these lists, with the constraints of the schema (UNIQUE, PRIMARY KEY) as
-- IntegrityErrors. The rows of a table with an AUTOINCREMENT ordinal stand in the order of that
-- ordinal: nothing deletes rows, and a rollback takes the count back too.
pub mod Commits
pub mod Balance
pub mod Refusals
use effect_probe.Prelude.{
  ℕ, ◌+◌, String, Bool, not, ◌||◌, List, [], ◌∷◌, ◌++◌, map, Option, none, some, length, any, find,
  format, decimal, str_eq, if◌then◌else◌,
}
use effect_probe.Prelude.Int.{ℤ, pos, ◌+ℤ◌, ltb_ℤ}
use effect_probe.Exception.{Exc, other, Outcome, value, raised, M, pure, raise, ◌>>=◌, ◌>>◌}
use effect_probe.Kernel.Types.{SurfaceObservation}
use effect_probe.Refund.Model.{RefundReceipt, RefundState}
use effect_probe.Refund.Model

-- A row of `payments`.
pub record Payment : Type 0 where
  pub payment_id : String
  pub payment_minor_units : ℤ
  pub refunded_minor_units : ℤ

-- A row of `refund_events`, without its ordinal.
pub record McpRefundEvent : Type 0 where
  pub refund_id : String
  pub payment_id : String
  pub amount_minor_units : ℤ
  pub operation_key : Option String

-- A row of `mcp_deliveries`.
pub record McpDelivery : Type 0 where
  pub ordinal : ℕ
  pub mcp_request_id : String
  pub operation_key : String
  pub process_id : ℕ

pub record Database : Type 0 where
  pub payments : List Payment
  pub refund_events : List McpRefundEvent
  pub keyed_receipts : List (String × RefundReceipt)
  pub mcp_deliveries : List McpDelivery

pub data Mode : Type 0 where
  unsafe keyed : Mode

-- `initialize_refund_database`
abbrev pub initialize_refund_database : Database
initialize_refund_database = record {
  payments =
      record {
        payment_id = Model.payment_id;
        payment_minor_units = Model.payment_minor_units;
        refunded_minor_units = pos 0;
      }
      ∷ [];
  refund_events = [];
  keyed_receipts = [];
  mcp_deliveries = [];
}

abbrev integrity_error : String → Exc
integrity_error column = other (record {
  type_name = "IntegrityError";
  text = format ("UNIQUE constraint failed: " ∷ column ∷ []);
})

abbrev pub value_error : List String → Exc
value_error parts = other (record { type_name = "ValueError"; text = format parts })

abbrev settle : {A : Type 0} → Database → Outcome A × Database → Outcome A × Database
settle db (value a, db') = (value a, db')
settle db (raised e, db') = (raised e, db)

-- `with sqlite3.connect(path, isolation_level=None)` with a transaction begun in it: whatever leaves
-- the block as an exception rolls back what it has written.
unfoldable pub transaction : {A : Type 0} → M Database A → M Database A
transaction body db = settle db (body db)

abbrev pub delivery_row : String → String → ℕ → Database → McpDelivery
delivery_row mcp_request_id operation_key process_id db = record {
  ordinal = length db.mcp_deliveries + 1;
  mcp_request_id = mcp_request_id;
  operation_key = operation_key;
  process_id = process_id;
}

-- `INSERT INTO mcp_deliveries`
abbrev pub insert_delivery : String → String → ℕ → M Database Unit
insert_delivery mcp_request_id operation_key process_id db = (
  value tt,
  record db {
    mcp_deliveries =
        db.mcp_deliveries ++ (delivery_row mcp_request_id operation_key process_id db ∷ []);
  },
)

-- `SELECT ... FROM keyed_receipts WHERE operation_key = ?`
unfoldable pub select_receipt : String → List (String × RefundReceipt) → Option RefundReceipt
select_receipt key [] = none
select_receipt key ((k, r) ∷ rows) = if str_eq k key then some r else select_receipt key rows

-- The receipt that is looked for in the keyed mode alone.
abbrev pub stored_for : Mode → String → Database → Option RefundReceipt
stored_for Mode.unsafe key db = none
stored_for Mode.keyed key db = select_receipt key db.keyed_receipts

-- `SELECT ... FROM payments WHERE payment_id = ?`
unfoldable pub select_payment : String → List Payment → Option Payment
select_payment id payments = find (λ (p : Payment). str_eq p.payment_id id) payments

-- `INSERT INTO refund_events`
unfoldable pub insert_event : McpRefundEvent → M Database Unit
insert_event row db =
    if any (λ (e : McpRefundEvent). str_eq e.refund_id row.refund_id) db.refund_events
    then (raised (integrity_error "refund_events.refund_id"), db)
    else (value tt, record db { refund_events = db.refund_events ++ (row ∷ []) })

abbrev pub add_refunded : String → ℤ → Payment → Payment
add_refunded id amount p =
    if str_eq p.payment_id id
    then record p { refunded_minor_units = p.refunded_minor_units +ℤ amount }
    else p

-- `UPDATE payments SET refunded_minor_units = refunded_minor_units + ? WHERE payment_id = ?`
unfoldable pub update_payment : String → ℤ → M Database Unit
update_payment id amount db =
    (value tt, record db { payments = map (add_refunded id amount) db.payments })

-- `INSERT INTO keyed_receipts`, in the keyed mode alone.
unfoldable pub insert_receipt : Mode → String → RefundReceipt → M Database Unit
insert_receipt Mode.unsafe key receipt db = (value tt, db)
insert_receipt Mode.keyed key receipt db =
    if any (λ (row : String × RefundReceipt). str_eq row.0 key) db.keyed_receipts
    then (raised (integrity_error "keyed_receipts.operation_key"), db)
    else (value tt, record db { keyed_receipts = db.keyed_receipts ++ ((key, receipt) ∷ []) })

abbrev pub provider_key : Mode → String → Option String
provider_key Mode.unsafe key = none
provider_key Mode.keyed key = some key

abbrev pub new_refund_id : Database → String
new_refund_id db = format ("refund/" ∷ decimal (length db.refund_events + 1) ∷ [])

abbrev pub event_row : Mode → String → ℤ → String → Database → McpRefundEvent
event_row mode payment_id amount key db = record {
  refund_id = new_refund_id db;
  payment_id = payment_id;
  amount_minor_units = amount;
  operation_key = provider_key mode key;
}

abbrev pub receipt_row : String → ℤ → Database → RefundReceipt
receipt_row payment_id amount db = record {
  refund_id = new_refund_id db;
  payment_id = payment_id;
  amount_minor_units = amount;
}

-- The writes of a refund that the payment allows.
unfoldable pub record_refund : Mode → String → ℤ → String → M Database RefundReceipt
record_refund mode payment_id amount key db =
    (do
      insert_event (event_row mode payment_id amount key db)
      update_payment payment_id amount
      insert_receipt mode key (receipt_row payment_id amount db)
      pure (receipt_row payment_id amount db))
      db

-- `amount_minor_units <= 0 or int(payment[1]) + amount_minor_units > int(payment[0])`
abbrev pub exceeds : ℤ → Payment → Bool
exceeds amount p =
    not (ltb_ℤ (pos 0) amount) || ltb_ℤ p.payment_minor_units (p.refunded_minor_units +ℤ amount)

-- The refund of a payment that was looked up.
unfoldable pub refund_payment :
    Mode → String → ℤ → String → Option Payment → M Database RefundReceipt
refund_payment mode payment_id amount key none =
    raise (value_error ("unknown payment: " ∷ payment_id ∷ []))
refund_payment mode payment_id amount key (some p) =
    if exceeds amount p
    then raise (value_error ("refund amount exceeds the available payment balance" ∷ []))
    else record_refund mode payment_id amount key

-- What follows the lookup of a stored receipt.
unfoldable pub commit_new :
    Mode → String → ℤ → String → Option RefundReceipt → M Database RefundReceipt
commit_new mode payment_id amount key (some receipt) db = (value receipt, db)
commit_new mode payment_id amount key none db =
    refund_payment mode payment_id amount key (select_payment payment_id db.payments) db

abbrev pub commit_body : Mode → String → ℤ → String → M Database RefundReceipt
commit_body mode payment_id amount key db =
    commit_new mode payment_id amount key (stored_for mode key db) db

-- `commit_refund`, by a process with the given id.
unfoldable pub commit_refund : Mode → String → ℤ → String → String → ℕ → M Database RefundReceipt
commit_refund mode payment_id amount key mcp_request_id process_id =
    transaction
      (do insert_delivery mcp_request_id key process_id; commit_body mode payment_id amount key)

abbrev observed : Option Payment → M Database (SurfaceObservation RefundState McpRefundEvent)
observed none db = (raised (value_error ("refund fixture payment is missing" ∷ [])), db)
observed (some p) db = (
  value (record {
    state = record {
      payment_id = p.payment_id;
      payment_minor_units = p.payment_minor_units;
      refunded_minor_units = p.refunded_minor_units;
      key_index_size = length db.keyed_receipts;
    };
    history = db.refund_events;
  }),
  db,
)

-- `observe_refunds`
unfoldable pub observe_refunds : M Database (SurfaceObservation RefundState McpRefundEvent)
observe_refunds db = observed (select_payment Model.payment_id db.payments) db

-- `read_mcp_deliveries`
abbrev pub read_mcp_deliveries : M Database (List McpDelivery)
read_mcp_deliveries db = (value db.mcp_deliveries, db)

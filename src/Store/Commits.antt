-- ===== src/Store/Commits.antt =====
-- What a call of commit_refund leaves behind (src/effectprobe/_mcp_refund_store.py).
use effect_probe.Prelude.{
  ℕ, String, ◌≡◌, refl, ap, ◌⊎◌, inl, inr, false, List, [], ◌∷◌, ◌++◌, map, Option, none, some,
  arith, Bool-cases, any, str_eq, str_eq_iff, Option-cases,
}
use effect_probe.Prelude.Int.{ℤ}
use effect_probe.Exception.{Exc, Outcome, value, raised, M, ◌>>=◌}
use effect_probe.Exception.Bind.{bind-value}
use effect_probe.Refund.Model.{RefundReceipt}
use effect_probe.Store.{
  Payment, McpRefundEvent, Database, Mode, transaction, delivery_row, select_receipt, stored_for,
  select_payment, insert_event, add_refunded, update_payment, insert_receipt, event_row,
  receipt_row, record_refund, exceeds, refund_payment, commit_new, commit_body, commit_refund,
}

module _ {A : Type 0} where
  transaction-raised :
      (body : M Database A) (db : Database) {x : Exc} {db' : Database}
      → transaction body db ≡ (raised x, db')
      → db' ≡ db
  unfolding transaction
  transaction-raised body db e = ground arith

  transaction-value :
      (body : M Database A) (db : Database) {a : A} {db' : Database}
      → transaction body db ≡ (value a, db')
      → body db ≡ (value a, db')
  unfolding transaction
  transaction-value body db e = ground arith

-- The rows that a new refund writes, and the receipt it returns.
pub record Recorded (mode : Mode) (payment_id : String) (amount : ℤ) (key : String) (db : Database)
    (r : RefundReceipt) (db' : Database) : Type 0 where
  pub receipt : r ≡ receipt_row payment_id amount db
  pub events :
      db'.refund_events ≡ db.refund_events ++ (event_row mode payment_id amount key db ∷ [])
  pub payments : db'.payments ≡ map (add_refunded payment_id amount) db.payments
  pub deliveries : db'.mcp_deliveries ≡ db.mcp_deliveries
  pub stored : mode ≡ Mode.keyed → select_receipt key db'.keyed_receipts ≡ some r

select_receipt-fresh :
    (key : String) (r : RefundReceipt) (rows : List (String × RefundReceipt))
    → any (λ (row : String × RefundReceipt). str_eq row.0 key) rows ≡ false
    → select_receipt key (rows ++ ((key, r) ∷ [])) ≡ some r
unfolding select_receipt
select_receipt-fresh key r [] e = ground (arith, str_eq_iff key key)
select_receipt-fresh key r ((k, s) ∷ rows) e = ground (arith, select_receipt-fresh key r rows)

insert_receipt-value :
    (mode : Mode) (key : String) (receipt : RefundReceipt) (db : Database) {db' : Database}
    → insert_receipt mode key receipt db ≡ (value tt, db')
    → (db'.refund_events ≡ db.refund_events)
      × (db'.payments ≡ db.payments)
      × (db'.mcp_deliveries ≡ db.mcp_deliveries)
      × (mode ≡ Mode.keyed → select_receipt key db'.keyed_receipts ≡ some receipt)
unfolding insert_receipt
insert_receipt-value Mode.unsafe key receipt db e =
    (ground arith, ground arith, ground arith, λ h. cc h)
insert_receipt-value Mode.keyed key receipt db e = (
  ground arith,
  ground arith,
  ground arith,
  λ h. ground (arith, select_receipt-fresh key receipt db.keyed_receipts),
)

insert_event-value :
    (row : McpRefundEvent) (db : Database) {db' : Database}
    → insert_event row db ≡ (value tt, db')
    → db' ≡ record db { refund_events = db.refund_events ++ (row ∷ []) }
unfolding insert_event
insert_event-value row db e = ground arith

update_payment-value :
    (id : String) (amount : ℤ) (db : Database) {db' : Database}
    → update_payment id amount db ≡ (value tt, db')
    → db' ≡ record db { payments = map (add_refunded id amount) db.payments }
unfolding update_payment
update_payment-value id amount db e = ground arith

module _ (mode : Mode) (payment_id : String) (amount : ℤ) (key : String) where
  record_refund-Recorded :
      (db : Database) {r : RefundReceipt} {db' : Database}
      → record_refund mode payment_id amount key db ≡ (value r, db')
      → Recorded mode payment_id amount key db r db'
  unfolding record_refund
  record_refund-Recorded db e =
      let row = event_row mode payment_id amount key db in
      let (_, db₁, e₁, rest₁) = bind-value (insert_event row) _ db e in
      let (_, db₂, e₂, rest₂) = bind-value (update_payment payment_id amount) _ db₁ rest₁ in
      let (_, db₃, e₃, rest₃) =
        bind-value (insert_receipt mode key (receipt_row payment_id amount db)) _ db₂ rest₂ in
      let inserted = insert_event-value row db e₁ in
      let updated = update_payment-value payment_id amount db₁ e₂ in
      let (events, payments, deliveries, stored) = insert_receipt-value mode key _ db₂ e₃ in
      let returned = ap (λ (p : Outcome RefundReceipt × Database). p.1) rest₃ in
      record {
        receipt = ground arith;
        events = ground (arith, events, inserted, updated, returned);
        payments = ground (arith, payments, inserted, updated, returned);
        deliveries = ground (arith, deliveries, inserted, updated, returned);
        stored = λ h. ground (arith, stored h, returned);
      }

  -- A body that returns has found the receipt of its key, or has recorded a refund that the balance
  -- of its payment allows.
  pub commit_body-value :
      (db : Database) {r : RefundReceipt} {db' : Database}
      → commit_body mode payment_id amount key db ≡ (value r, db')
      → ((stored_for mode key db ≡ some r) × (db' ≡ db))
        ⊎ ((p : Payment) × (select_payment payment_id db.payments ≡ some p)
            × (exceeds amount p ≡ false)
            × Recorded mode payment_id amount key db r db')
  unfolding commit_new refund_payment
  commit_body-value db e = elim (Option-cases (stored_for mode key db)) [
    | inr (stored, found) ↦ inl (ground (arith, found), ground (arith, found))
    | inl missing ↦ elim (Option-cases (select_payment payment_id db.payments)) [
      | inl unknown ↦ absurd (ground (arith, missing, unknown))
      | inr (p, known) ↦ elim (Bool-cases (exceeds amount p)) [
        | inl over ↦ absurd (ground (arith, missing, known, over))
        | inr within ↦
            inr
              (p, known, within, record_refund-Recorded db (ground (arith, missing, known, within)))
      ]
    ]
  ]

stored_for-some :
    (mode : Mode) (key : String) (db : Database) {r : RefundReceipt}
    → stored_for mode key db ≡ some r
    → (mode ≡ Mode.keyed) × (select_receipt key db.keyed_receipts ≡ some r)
stored_for-some Mode.unsafe key db e = ground arith
stored_for-some Mode.keyed key db e = (refl, e)

-- The key that the event of a refund carries.
abbrev pub recorded_key : Mode → String → Option String
recorded_key Mode.keyed key = some key
recorded_key Mode.unsafe key = none

event_row-key :
    (mode : Mode) (payment_id : String) (amount : ℤ) (key : String) (db : Database)
    → (event_row mode payment_id amount key db).operation_key ≡ recorded_key mode key
event_row-key Mode.keyed payment_id amount key db = refl
event_row-key Mode.unsafe payment_id amount key db = refl

new_event :
    {mode : Mode} {payment_id : String} {amount : ℤ} {key : String} {db db' : Database}
    {r : RefundReceipt}
    → Recorded mode payment_id amount key db r db'
    → db'.refund_events
      ≡ db.refund_events
        ++ (record {
          refund_id = r.refund_id;
          payment_id = payment_id;
          amount_minor_units = amount;
          operation_key = recorded_key mode key;
        }
            ∷ [])
new_event {mode = mode} {payment_id = payment_id} {amount = amount} {key = key} {db = db} recorded =
    rw (recorded.receipt, ← event_row-key mode payment_id amount key db) recorded.events

-- The database in which the body of a call runs.
abbrev pub delivered : String → String → ℕ → Database → Database
delivered request key process db = record db {
  mcp_deliveries = db.mcp_deliveries ++ (delivery_row request key process db ∷ []);
}

module _ (mode : Mode) (payment_id : String) (amount : ℤ) (key request : String) (process : ℕ) where
  -- A call of commit_refund that raises leaves the database as it was, the delivery it had
  -- recorded included.
  pub commit_refund-raised :
      (db : Database) {x : Exc} {db' : Database}
      → commit_refund mode payment_id amount key request process db ≡ (raised x, db')
      → db' ≡ db
  unfolding commit_refund
  commit_refund-raised db e = transaction-raised _ db e

  pub commit_refund-body :
      (db : Database) {r : RefundReceipt} {db' : Database}
      → commit_refund mode payment_id amount key request process db ≡ (value r, db')
      → commit_body mode payment_id amount key (delivered request key process db) ≡ (value r, db')
  unfolding commit_refund ◌>>=◌
  commit_refund-body db e = transaction-value _ db e

  -- A call of commit_refund that returns has appended exactly its one delivery, and either no
  -- event, in the keyed mode with its receipt stored before, or exactly one event, with the refund
  -- id of the returned receipt, the asked payment and the asked amount, and the key in the keyed
  -- mode alone; the returned receipt of a new event is for that payment and amount.
  pub commit_refund-appends :
      (db : Database) {r : RefundReceipt} {db' : Database}
      → commit_refund mode payment_id amount key request process db ≡ (value r, db')
      → (db'.mcp_deliveries ≡ db.mcp_deliveries ++ (delivery_row request key process db ∷ []))
        × (((db'.refund_events ≡ db.refund_events)
              × (mode ≡ Mode.keyed)
              × (select_receipt key db.keyed_receipts ≡ some r))
            ⊎ ((db'.refund_events
                  ≡ db.refund_events
                    ++ (record {
                      refund_id = r.refund_id;
                      payment_id = payment_id;
                      amount_minor_units = amount;
                      operation_key = recorded_key mode key;
                    }
                        ∷ []))
                × (r.payment_id ≡ payment_id)
                × (r.amount_minor_units ≡ amount)))
  commit_refund-appends db e =
      let db₁ = delivered request key process db in
      elim (commit_body-value mode payment_id amount key db₁ (commit_refund-body db e)) [
        | inl (stored, same) ↦ (
          ground (arith, same),
          inl (
              let (keyed, found) = stored_for-some mode key db₁ stored in
              (ground (arith, same), keyed, found)),
        )
        | inr (p, known, within, recorded) ↦ (
          recorded.deliveries,
          inr (
            new_event recorded,
            ap (λ (r : RefundReceipt). r.payment_id) recorded.receipt,
            ap (λ (r : RefundReceipt). r.amount_minor_units) recorded.receipt,
          ),
        )
      ]

module _ (payment_id : String) (amount : ℤ) (key request : String) (process : ℕ) where
  commit_refund-stored :
      (db : Database) {r : RefundReceipt} {db' : Database}
      → commit_refund Mode.keyed payment_id amount key request process db ≡ (value r, db')
      → select_receipt key db'.keyed_receipts ≡ some r
  commit_refund-stored db e =
      elim (commit_body-value Mode.keyed payment_id amount key (delivered request key process db)
        (commit_refund-body Mode.keyed payment_id amount key request process db e)) [
          | inl (stored, same) ↦ ground (arith, stored, same)
          | inr (p, known, within, recorded) ↦ recorded.stored refl
        ]

  -- After a keyed call of commit_refund that returned, every keyed call with the same key returns
  -- the same receipt, whatever payment and amount it asks for, and adds its delivery and nothing
  -- else.
  pub commit_refund-again :
      (db : Database) {r : RefundReceipt} {db' : Database}
      → commit_refund Mode.keyed payment_id amount key request process db ≡ (value r, db')
      → (payment_id' : String) (amount' : ℤ) (request' : String) (process' : ℕ)
      → commit_refund Mode.keyed payment_id' amount' key request' process' db'
        ≡ (value r, delivered request' key process' db')
  unfolding commit_refund transaction commit_new ◌>>=◌
  commit_refund-again db e payment_id' amount' request' process' =
      rw (commit_refund-stored db e, commit_new) refl

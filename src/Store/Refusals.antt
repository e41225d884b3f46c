-- ===== src/Store/Refusals.antt =====
-- The calls of commit_refund that are refused (src/effectprobe/_mcp_refund_store.py).
use effect_probe.Prelude.{
  ℕ, String, ◌≡◌, ◌≢◌, ◌↔◌, refl, sym, ap, ◌∙◌, ◌⊎◌, inl, inr, Bool-cases, true, none, some, arith,
  [], ◌∷◌, Option-cases,
}
use effect_probe.Prelude.Int.{ℤ, pos, ◌+ℤ◌, ◌≤ℤ◌}
use effect_probe.Exception.{Exc, raised, M, ◌>>=◌, type_name}
use effect_probe.Exception.Bind.{bind-raised, raised-ne-value}
use effect_probe.Refund.Model.{RefundReceipt}
use effect_probe.Store.{
  Payment, McpRefundEvent, Database, Mode, transaction, select_receipt, stored_for, select_payment,
  insert_event, update_payment, insert_receipt, receipt_row, event_row, record_refund, exceeds,
  refund_payment, commit_new, commit_body, commit_refund, value_error,
}
use effect_probe.Store.Commits.{delivered}

-- No receipt is stored under the key where keys count, and the payment is unknown, or the amount
-- is not positive or more than what is left of it.
pub record IsRefused (mode : Mode) (payment_id : String) (amount : ℤ) (key : String) (db : Database)
    : Type 0 where
  pub fresh : mode ≡ Mode.keyed → select_receipt key db.keyed_receipts ≡ none
  pub invalid :
      (select_payment payment_id db.payments ≡ none)
      ⊎ ((p : Payment) × (select_payment payment_id db.payments ≡ some p)
          × ((amount ≤ℤ pos 0) ⊎ ¬ (p.refunded_minor_units +ℤ amount ≤ℤ p.payment_minor_units)))

exceeds_iff :
    (amount : ℤ) (p : Payment)
    → (exceeds amount p ≡ true)
      ↔ ((amount ≤ℤ pos 0) ⊎ ¬ (p.refunded_minor_units +ℤ amount ≤ℤ p.payment_minor_units))
exceeds_iff amount p = ground arith

insert_event-raised :
    (row : McpRefundEvent) (db : Database) {x : Exc} {db' : Database}
    → insert_event row db ≡ (raised x, db')
    → type_name x ≡ "IntegrityError"
unfolding insert_event type_name
insert_event-raised row db e = ground arith

update_payment-raised :
    (id : String) (amount : ℤ) (db : Database) {x : Exc} {db' : Database}
    → update_payment id amount db ≢ (raised x, db')
unfolding update_payment
update_payment-raised id amount db e = raised-ne-value (sym e)

insert_receipt-raised :
    (mode : Mode) (key : String) (r : RefundReceipt) (db : Database) {x : Exc} {db' : Database}
    → insert_receipt mode key r db ≡ (raised x, db')
    → type_name x ≡ "IntegrityError"
unfolding insert_receipt type_name
insert_receipt-raised Mode.unsafe key r db e = absurd (raised-ne-value (sym e))
insert_receipt-raised Mode.keyed key r db e = ground arith

stored_for-none :
    (mode : Mode) (key : String) (db : Database)
    → (stored_for mode key db ≡ none)
      ↔ (mode ≡ Mode.keyed → select_receipt key db.keyed_receipts ≡ none)
stored_for-none Mode.unsafe key db = (λ e h. cc h, λ h. refl)
stored_for-none Mode.keyed key db = (λ e h. e, λ h. h refl)

module _ (mode : Mode) (payment_id : String) (amount : ℤ) (key : String) where
  -- The writes of a refund fail only by a constraint of the schema.
  record_refund-raised :
      (db : Database) {x : Exc} {db' : Database}
      → record_refund mode payment_id amount key db ≡ (raised x, db')
      → type_name x ≡ "IntegrityError"
  unfolding record_refund
  record_refund-raised db e =
      let row = event_row mode payment_id amount key db in
      let r = receipt_row payment_id amount db in
      elim (bind-raised (insert_event row) _ db e) [
        | inl event ↦ insert_event-raised row db event
        | inr (_, db₁, _, rest) ↦ elim (bind-raised (update_payment payment_id amount) _ db₁ rest) [
          | inl update ↦ absurd (update_payment-raised payment_id amount db₁ update)
          | inr (_, db₂, _, rest') ↦ elim (bind-raised (insert_receipt mode key r) _ db₂ rest') [
            | inl receipt ↦ insert_receipt-raised mode key r db₂ receipt
            | inr (_, db₃, _, ended) ↦ absurd (raised-ne-value (sym ended))
          ]
        ]
      ]

  refund_payment-exceeds :
      (p : Payment) (db : Database) {x : Exc} {db' : Database}
      → refund_payment mode payment_id amount key (some p) db ≡ (raised x, db')
      → type_name x ≡ "ValueError"
      → exceeds amount p ≡ true
  unfolding refund_payment
  refund_payment-exceeds p db e h = elim (Bool-cases (exceeds amount p)) [
    | inl over ↦ over
    | inr within ↦
        let broken = record_refund-raised db (rw within at e) in
        let clash : Path String "IntegrityError" "ValueError" = sym broken ∙ h in cc clash
  ]

  commit_body-IsRefused :
      (db : Database) {x : Exc} {db' : Database}
      → commit_body mode payment_id amount key db ≡ (raised x, db')
      → type_name x ≡ "ValueError"
      → IsRefused mode payment_id amount key db
  unfolding commit_new
  commit_body-IsRefused db e h = elim (Option-cases (stored_for mode key db)) [
    | inr (r, stored) ↦ absurd (raised-ne-value (sym (rw stored at e)))
    | inl missing ↦ record {
      fresh = (stored_for-none mode key db).0 missing;
      invalid = elim (Option-cases (select_payment payment_id db.payments)) [
        | inl unknown ↦ inl unknown
        | inr (p, known) ↦ inr (
          p,
          known,
          (exceeds_iff amount p).0 (refund_payment-exceeds p db (rw (missing, known) at e) h),
        )
      ];
    }
  ]

  IsRefused-raises :
      (db : Database)
      → IsRefused mode payment_id amount key db
      → (x : Exc) × (db' : Database) × (type_name x ≡ "ValueError")
        × (commit_body mode payment_id amount key db ≡ (raised x, db'))
  unfolding commit_new refund_payment type_name
  IsRefused-raises db h =
      let missing = (stored_for-none mode key db).1 h.fresh in
      elim h.invalid [
        | inl unknown ↦ (
          value_error ("unknown payment: " ∷ payment_id ∷ []),
          db,
          refl,
          rw (missing, unknown) refl,
        )
        | inr (p, known, wrong) ↦
            let over = (exceeds_iff amount p).1 wrong in
            (
              value_error ("refund amount exceeds the available payment balance" ∷ []),
              db,
              refl,
              rw (missing, known, over) refl,
            )
      ]

module _ {A : Type 0} (body : M Database A) (db : Database) where
  transaction-raised_body :
      {x : Exc} {db' : Database}
      → transaction body db ≡ (raised x, db')
      → (body db ≡ (raised x, (body db).1)) × (db' ≡ db)
  unfolding transaction
  transaction-raised_body e = (ground arith, ground arith)

  transaction-raises :
      {x : Exc} {db' : Database} → body db ≡ (raised x, db') → transaction body db ≡ (raised x, db)
  unfolding transaction
  transaction-raises e = rw e refl

-- A call of commit_refund raises a ValueError and leaves a database exactly when that database is
-- the old one, in the keyed mode no receipt is stored under the key, and the payment is unknown or
-- the amount is not positive or more than what the payment has left.
pub commit_refund-IsRefused_iff :
    (mode : Mode) (payment_id : String) (amount : ℤ) (key request : String) (process : ℕ)
    (db db' : Database)
    → ((x : Exc) × (type_name x ≡ "ValueError")
        × (commit_refund mode payment_id amount key request process db ≡ (raised x, db')))
      ↔ (IsRefused mode payment_id amount key db × (db' ≡ db))
unfolding commit_refund ◌>>=◌
commit_refund-IsRefused_iff mode payment_id amount key request process db db' =
    let db₁ = delivered request key process db in
    (
      λ (x, named, e).
          let (inside, back) = transaction-raised_body _ db e in
          let refused = commit_body-IsRefused mode payment_id amount key db₁ inside named in
          (record { fresh = refused.fresh; invalid = refused.invalid }, back),
      λ (refused, back).
          let (x, _, named, e) =
            IsRefused-raises mode payment_id amount key db₁
              (record { fresh = refused.fresh; invalid = refused.invalid }) in
          (x, named, transaction-raises _ db e ∙ ap (λ d. (raised x, d)) (sym back)),
    )

-- ===== src/Store/Balance.antt =====
-- The balances of the payments (src/effectprobe/_mcp_refund_store.py).
use effect_probe.Prelude.{
  ℕ, String, ◌≡◌, refl, ap, inl, inr, false, List, [], ◌∷◌, ◌++◌, map, some, arith, str_eq,
  str_eq_iff, if◌then◌else◌, Bool-cases,
}
use effect_probe.Prelude.Int.{ℤ, pos, ◌+ℤ◌, ◌≤ℤ◌, +ℤ_parts}
use effect_probe.Exception.{Outcome, value}
use effect_probe.Exception.Bind.{Outcome-cases}
use effect_probe.Kernel.Types.{SurfaceObservation}
use effect_probe.Refund.Model.{RefundReceipt, RefundState}
use effect_probe.Refund.Model
use effect_probe.Store.{
  Payment, McpRefundEvent, Database, Mode, initialize_refund_database, select_payment, add_refunded,
  exceeds, event_row, commit_refund, observe_refunds,
}
use effect_probe.Store.Commits.{
  Recorded, commit_body-value, delivered, commit_refund-raised, commit_refund-body,
}

-- What a history has refunded of a payment, on top of a sum.
abbrev pub total_from : ℤ → String → List McpRefundEvent → ℤ
total_from acc id [] = acc
total_from acc id (e ∷ es) =
    total_from (if str_eq e.payment_id id then acc +ℤ e.amount_minor_units else acc) id es

total_from-append :
    (acc : ℤ) (id : String) (es : List McpRefundEvent) (e : McpRefundEvent)
    → total_from acc id (es ++ (e ∷ [])) ≡ (
        if str_eq e.payment_id id
        then total_from acc id es +ℤ e.amount_minor_units
        else total_from acc id es)
total_from-append acc id [] e = refl
total_from-append acc id (x ∷ es) e =
    total_from-append (if str_eq x.payment_id id then acc +ℤ x.amount_minor_units else acc) id es e

-- A payment's row agrees with the history and is not overdrawn.
pub record IsBalanced (events : List McpRefundEvent) (id : String) (p : Payment) : Type 0 where
  pub total : p.refunded_minor_units ≡ total_from (pos 0) id events
  pub nonnegative : pos 0 ≤ℤ p.refunded_minor_units
  pub covered : p.refunded_minor_units ≤ℤ p.payment_minor_units

-- Each payment that is found is balanced.
abbrev pub IsLedger : Database → Type 0
IsLedger db =
    (id : String) (p : Payment)
    → select_payment id db.payments ≡ some p
    → IsBalanced db.refund_events id p

select_payment-id :
    (id : String) (ps : List Payment) {p : Payment}
    → select_payment id ps ≡ some p
    → p.payment_id ≡ id
unfolding select_payment
select_payment-id id [] {p = p} e = cc e
select_payment-id id (x ∷ ps) {p = p} e = elim (Bool-cases (str_eq x.payment_id id)) [
  | inl here ↦ ground (arith, here, str_eq_iff x.payment_id id)
  | inr there ↦ select_payment-id id ps {p = p} (ground (arith, there))
]

-- A payment that is found behind an update was found before it.
select_payment-updated :
    (id to : String) (amount : ℤ) (ps : List Payment) {p : Payment}
    → select_payment id (map (add_refunded to amount) ps) ≡ some p
    → (q : Payment) × (select_payment id ps ≡ some q) × (p ≡ add_refunded to amount q)
unfolding select_payment
select_payment-updated id to amount [] e = cc e
select_payment-updated id to amount (x ∷ ps) e = elim (Bool-cases (str_eq x.payment_id id)) [
  | inl here ↦ (x, ground (arith, here), ground (arith, here))
  | inr there ↦
      let (q, found, same) = select_payment-updated id to amount ps (ground (arith, there)) in
      (q, ground (arith, there, found), same)
]

-- A sum with something positive is no less, and one that a balance covers is within it.
add_nonnegative : (a b : ℤ) (p : Payment) → pos 0 ≤ℤ a → exceeds b p ≡ false → pos 0 ≤ℤ a +ℤ b
add_nonnegative a b p h within = ground (arith, +ℤ_parts a b)

within_covered :
    (b : ℤ) (p : Payment)
    → exceeds b p ≡ false
    → p.refunded_minor_units +ℤ b ≤ℤ p.payment_minor_units
within_covered b p within = ground arith

module _ (mode : Mode) (payment_id : String) (amount : ℤ) (key : String) where
  -- A row that a new refund has updated is balanced if it was.
  updated-IsBalanced :
      (db : Database) (id : String) (p q : Payment)
      → select_payment payment_id db.payments ≡ some p
      → exceeds amount p ≡ false
      → select_payment id db.payments ≡ some q
      → IsBalanced db.refund_events id q
      → IsBalanced
          (db.refund_events ++ (event_row mode payment_id amount key db ∷ []))
          id
          (add_refunded payment_id amount q)
  updated-IsBalanced db id p q asked within found h =
      let q_id = select_payment-id id db.payments found in
      let appended =
        total_from-append (pos 0) id db.refund_events (event_row mode payment_id amount key db) in
      elim (Bool-cases (str_eq payment_id id)) [
        | inl same ↦
            let asked_id = (str_eq_iff payment_id id).0 same in
            let hit : add_refunded payment_id amount q
                ≡ record q { refunded_minor_units = q.refunded_minor_units +ℤ amount } =
              ground (arith, q_id, asked_id, str_eq_iff q.payment_id payment_id) in
            let p_is_q : p ≡ q = ground (arith, asked, found, asked_id) in
            rw hit (record {
              total = ground (arith, appended, same, h.total);
              nonnegative = add_nonnegative q.refunded_minor_units amount p h.nonnegative within;
              covered = within_covered amount q (rw p_is_q at within);
            })
        | inr other ↦
            let miss : add_refunded payment_id amount q ≡ q =
              ground (
                arith,
                other,
                q_id,
                str_eq_iff q.payment_id payment_id,
                str_eq_iff payment_id id,
              ) in
            rw miss (record {
              total = ground (arith, appended, other, h.total);
              nonnegative = h.nonnegative;
              covered = h.covered;
            })
      ]

  Recorded-IsLedger :
      (db : Database) (p : Payment) {r : RefundReceipt} {db' : Database}
      → select_payment payment_id db.payments ≡ some p
      → exceeds amount p ≡ false
      → Recorded mode payment_id amount key db r db'
      → IsLedger db
      → IsLedger db'
  Recorded-IsLedger db p asked within recorded h id p' found' =
      let (q, found, same) =
        select_payment-updated id payment_id amount db.payments (rw recorded.payments at found') in
      rw (recorded.events, same) (updated-IsBalanced db id p q asked within found (h id q found))

  module _ (request : String) (process : ℕ) where
    -- Every call of commit_refund, whether it returns or raises, preserves that each payment found
    -- by its id has a refunded total that equals the sum of its events in the history, is not
    -- negative, and does not exceed the payment.
    pub commit_refund-IsLedger :
        (db : Database)
        → IsLedger db
        → IsLedger (commit_refund mode payment_id amount key request process db).1
    commit_refund-IsLedger db h =
        let (o, db') = commit_refund mode payment_id amount key request process db in
        elim (Outcome-cases o) [
          | inr (x, fails) ↦
              rw
                (commit_refund-raised mode payment_id amount key request process db {db' = db'}
                  (ap (λ (a : Outcome RefundReceipt). (a, db')) fails))
                h
          | inl (r, returns) ↦
              elim (commit_body-value mode payment_id amount key (delivered request key process db)
                (commit_refund-body mode payment_id amount key request process db {db' = db'}
                  (ap (λ (a : Outcome RefundReceipt). (a, db')) returns))) [
                    | inl (stored, same) ↦ rw same h
                    | inr (p, asked, within, recorded) ↦
                        Recorded-IsLedger (delivered request key process db) p asked within recorded
                          h
                  ]
        ]

-- A new database is a ledger.
pub initialize_refund_database-IsLedger : IsLedger initialize_refund_database
unfolding select_payment
initialize_refund_database-IsLedger id p e = record {
  total = ground arith;
  nonnegative = ground arith;
  covered = ground arith;
}

-- A database that holds the payment of the fixture and is a ledger can be observed: the refunded
-- total of the state equals the sum of the observed history for that payment and does not exceed
-- it, and nothing is written.
pub observe_refunds-IsLedger :
    (db : Database) (p : Payment)
    → IsLedger db
    → select_payment Model.payment_id db.payments ≡ some p
    → (observation : SurfaceObservation RefundState McpRefundEvent) × (observe_refunds db
        ≡ (value observation, db))
      × (observation.state.refunded_minor_units
          ≡ total_from (pos 0) Model.payment_id observation.history)
      × (observation.state.refunded_minor_units ≤ℤ observation.state.payment_minor_units)
unfolding observe_refunds
observe_refunds-IsLedger db p h e =
    rw (e, observe_refunds)
      (let balanced = h Model.payment_id p e in (_, refl, balanced.total, balanced.covered))

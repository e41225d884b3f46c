-- ===== src/Refund/Provider.antt =====
-- `FakeRefundProvider` and the two subjects of src/effectprobe/_refund_comparison.py.
use effect_probe.Prelude.{
  ◌+◌, String, Bool, List, [], ◌∷◌, ◌++◌, Option, none, some, length, format, decimal, str_eq,
  if◌then◌else◌,
}
use effect_probe.Prelude.Int.{ℤ, pos, ◌+ℤ◌}
use effect_probe.Exception.{Outcome, value, raised}
use effect_probe.LostResult.{Subject, finish, act, deliver}
use effect_probe.Refund.Model.{
  RefundCommand, RefundEvent, RefundReceipt, RefundObservation, payment_id, payment_minor_units,
}

abbrev pub KeyIndex : Type 0
KeyIndex = List (String × RefundReceipt)

-- `key_index.get(key)`
unfoldable pub lookup : String → KeyIndex → Option RefundReceipt
lookup key [] = none
lookup key ((k, r) ∷ rest) = if str_eq k key then some r else lookup key rest

-- `key_index[key] = receipt`
unfoldable pub insert : String → RefundReceipt → KeyIndex → KeyIndex
insert key r [] = (key, r) ∷ []
insert key r ((k, s) ∷ rest) = if str_eq k key then (k, r) ∷ rest else (k, s) ∷ insert key r rest

pub record FakeRefundProvider : Type 0 where
  pub refunded_minor_units : ℤ
  pub history : List RefundEvent
  pub key_index : KeyIndex

abbrev pub new_provider : FakeRefundProvider
new_provider = record { refunded_minor_units = pos 0; history = []; key_index = [] }

-- The receipt that the index holds for a key that was given.
abbrev pub stored_receipt : Option String → FakeRefundProvider → Option RefundReceipt
stored_receipt none p = none
stored_receipt (some key) p = lookup key p.key_index

abbrev pub store_receipt : Option String → RefundReceipt → KeyIndex → KeyIndex
store_receipt none r index = index
store_receipt (some key) r index = insert key r index

-- `f"refund/{len(self._history) + 1}"`
abbrev pub next_refund_id : FakeRefundProvider → String
next_refund_id p = format ("refund/" ∷ decimal (length p.history + 1) ∷ [])

-- `refund` up to the delivery: the receipt to deliver, and the provider that has committed.
unfoldable pub refund :
    RefundCommand → Option String → FakeRefundProvider → RefundReceipt × FakeRefundProvider
refund command key p = elim (stored_receipt key p) [
  | some r ↦ (r, p)
  | none ↦
      let receipt : RefundReceipt = record {
        refund_id = next_refund_id p;
        payment_id = command.payment_id;
        amount_minor_units = command.amount_minor_units;
      } in
      (
        receipt,
        record {
          refunded_minor_units = p.refunded_minor_units +ℤ command.amount_minor_units;
          history =
              p.history
              ++ (record {
                refund_id = next_refund_id p;
                payment_id = command.payment_id;
                amount_minor_units = command.amount_minor_units;
                operation_key = key;
              }
                  ∷ []);
          key_index = store_receipt key receipt p.key_index;
        },
      )
]

-- `observe`
unfoldable pub observe : FakeRefundProvider → RefundObservation
observe p = record {
  state = record {
    payment_id = payment_id;
    payment_minor_units = payment_minor_units;
    refunded_minor_units = p.refunded_minor_units;
    key_index_size = length p.key_index;
  };
  history = p.history;
}

-- A subject with its provider: which of the two classes it is, and the receipts it has received.
pub record RefundWorld : Type 0 where
  pub provider : FakeRefundProvider
  pub keyed : Bool
  pub received_receipts : List RefundReceipt

abbrev pub new_world : Bool → RefundWorld
new_world keyed = record { provider = new_provider; keyed = keyed; received_receipts = [] }

-- The key that a subject hands on: the unsafe one ignores it.
abbrev pub key_for : Bool → RefundCommand → Option String
key_for keyed command = if keyed then some command.operation_key else none

-- What follows the call of the provider.
abbrev pub receive : Outcome RefundReceipt → Subject RefundWorld RefundReceipt
receive (value r) =
    act (λ w. record w { received_receipts = w.received_receipts ++ (r ∷ []) })
      (λ _. finish (value r))
receive (raised e) = finish (raised e)

-- `invoke` of both subjects.
unfoldable pub invoke_subject : RefundCommand → Subject RefundWorld RefundReceipt
invoke_subject command =
    act (λ w. record w { provider = (refund command (key_for w.keyed command) w.provider).1 })
      (λ w. deliver (refund command (key_for w.keyed command) w.provider).0 receive)

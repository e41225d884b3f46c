-- ===== src/Refund/Model.antt =====
-- The values of src/effectprobe/_refund_comparison.py, and `==` on them.
use effect_probe.Prelude.{
  ℕ, String, ◌≡◌, ◌↔◌, Bool, true, false, ◌&&◌, Option, none, some, arith, str_eq, str_eq_iff, ◌==◌,
}
use effect_probe.Prelude.Int.{ℤ, pos, eq_ℤ, eq_ℤ_iff}
use effect_probe.Identity.{OperationId}
use effect_probe.Kernel.Types.{SurfaceObservation}

abbrev pub payment_id : String
payment_id = "payment/refund-001"

abbrev pub payment_minor_units : ℤ
payment_minor_units = pos 10000

abbrev pub refund_minor_units : ℤ
refund_minor_units = pos 2500

abbrev pub operation_id : OperationId
operation_id = record { value = "operation/refund-001" }

abbrev pub operation_key : String
operation_key = "refund-key-001"

pub record RefundCommand : Type 0 where
  pub payment_id : String
  pub amount_minor_units : ℤ
  pub operation_key : String

pub record RefundEvent : Type 0 where
  pub refund_id : String
  pub payment_id : String
  pub amount_minor_units : ℤ
  pub operation_key : Option String

pub record RefundReceipt : Type 0 where
  pub refund_id : String
  pub payment_id : String
  pub amount_minor_units : ℤ

pub record RefundState : Type 0 where
  pub payment_id : String
  pub payment_minor_units : ℤ
  pub refunded_minor_units : ℤ
  pub key_index_size : ℕ

abbrev pub RefundObservation : Type 0
RefundObservation = SurfaceObservation RefundState RefundEvent

-- The tuple of `_canonicalize_event`.
pub record CanonicalRefundEvent : Type 0 where
  pub payment_id : String
  pub amount_minor_units : ℤ
  pub operation_key : Option String

-- The tuple of `_canonicalize_state`.
pub record CanonicalRefundState : Type 0 where
  pub payment_id : String
  pub payment_minor_units : ℤ
  pub refunded_minor_units : ℤ
  pub key_index_size : ℕ

abbrev pub key_eq : Option String → Option String → Bool
key_eq none none = true
key_eq none (some b) = false
key_eq (some a) none = false
key_eq (some a) (some b) = str_eq a b

abbrev pub event_eq : RefundEvent → RefundEvent → Bool
event_eq a b =
    str_eq a.refund_id b.refund_id
    && str_eq a.payment_id b.payment_id
    && eq_ℤ a.amount_minor_units b.amount_minor_units
    && key_eq a.operation_key b.operation_key

abbrev pub canonical_event_eq : CanonicalRefundEvent → CanonicalRefundEvent → Bool
canonical_event_eq a b =
    str_eq a.payment_id b.payment_id
    && eq_ℤ a.amount_minor_units b.amount_minor_units
    && key_eq a.operation_key b.operation_key

abbrev pub state_eq : RefundState → RefundState → Bool
state_eq a b =
    str_eq a.payment_id b.payment_id
    && eq_ℤ a.payment_minor_units b.payment_minor_units
    && eq_ℤ a.refunded_minor_units b.refunded_minor_units
    && a.key_index_size == b.key_index_size

abbrev pub canonical_state_eq : CanonicalRefundState → CanonicalRefundState → Bool
canonical_state_eq a b =
    str_eq a.payment_id b.payment_id
    && eq_ℤ a.payment_minor_units b.payment_minor_units
    && eq_ℤ a.refunded_minor_units b.refunded_minor_units
    && a.key_index_size == b.key_index_size

pub key_eq_iff : (a b : Option String) → (key_eq a b ≡ true) ↔ (a ≡ b)
key_eq_iff none none = ground arith
key_eq_iff none (some b) = ground arith
key_eq_iff (some a) none = ground arith
key_eq_iff (some a) (some b) = ground (arith, str_eq_iff a b)

pub event_eq_iff : (a b : RefundEvent) → (event_eq a b ≡ true) ↔ (a ≡ b)
event_eq_iff a b = ground (
  arith,
  str_eq_iff a.refund_id b.refund_id,
  str_eq_iff a.payment_id b.payment_id,
  eq_ℤ_iff a.amount_minor_units b.amount_minor_units,
  key_eq_iff a.operation_key b.operation_key,
)

pub canonical_state_eq_iff :
    (a b : CanonicalRefundState) → (canonical_state_eq a b ≡ true) ↔ (a ≡ b)
canonical_state_eq_iff a b = ground (
  arith,
  str_eq_iff a.payment_id b.payment_id,
  eq_ℤ_iff a.payment_minor_units b.payment_minor_units,
  eq_ℤ_iff a.refunded_minor_units b.refunded_minor_units,
)

-- `_canonicalize_state`
abbrev pub canonicalize_state : RefundState → CanonicalRefundState
canonicalize_state s = record {
  payment_id = s.payment_id;
  payment_minor_units = s.payment_minor_units;
  refunded_minor_units = s.refunded_minor_units;
  key_index_size = s.key_index_size;
}

-- `_canonicalize_event`
abbrev pub canonicalize_event : RefundEvent → CanonicalRefundEvent
canonicalize_event e = record {
  payment_id = e.payment_id;
  amount_minor_units = e.amount_minor_units;
  operation_key = e.operation_key;
}

-- ===== src/Artifact/Frozen.antt =====
-- Frozen JSON values of src/effectprobe/_evidence_artifact.py, and the artifacts made of them.
pub mod Thawed
use Prim.Native.String.{compare}
use Prim.Native.Nat.{Ordering}
use effect_probe.Prelude.{ℕ, String, Bool}
use effect_probe.Prelude.Int.{ℤ}
use effect_probe.Exception.{Outcome, value, raised, M, pure, ◌>>=◌, ◌>>◌}
use effect_probe.Artifact.{
  JsonValue, null, bool, int, str, list, dict, JsonItems, nil, item, JsonFields, end, field,
  validate_limits,
}
use effect_probe.Artifact.Envelope.{validate_envelope}

-- `FrozenJsonValue`, with its tuples, and the items of a `FrozenJsonObject`.
mutual
  pub data FrozenValue : Type 0 where
    frozen_null : FrozenValue
    frozen_bool : Bool → FrozenValue
    frozen_int : ℤ → FrozenValue
    frozen_str : String → FrozenValue
    frozen_tuple : FrozenItems → FrozenValue
    frozen_object : FrozenFields → FrozenValue

  pub data FrozenItems : Type 0 where
    no_items : FrozenItems
    frozen_item : FrozenValue → FrozenItems → FrozenItems

  pub data FrozenFields : Type 0 where
    no_fields : FrozenFields
    frozen_field : String → FrozenValue → FrozenFields → FrozenFields

-- A field goes in front of the first one whose name is not smaller.
abbrev pub insert_field : String → FrozenValue → FrozenFields → FrozenFields
insert_field key v no_fields = frozen_field key v no_fields
insert_field key v (frozen_field first w rest) =
    let below = insert_field key v rest in
    elim (compare key first) [
      | Ordering.gt ↦ frozen_field first w below
      | _ ↦ frozen_field key v (frozen_field first w rest)
    ]

-- `_freeze`: the fields of an object are sorted by their names.
unfoldable mutual
  pub freeze : JsonValue → FrozenValue
  freeze null = frozen_null
  freeze (bool b) = frozen_bool b
  freeze (int n) = frozen_int n
  freeze (str s) = frozen_str s
  freeze (list items) = frozen_tuple (freeze_items items)
  freeze (dict fields) = frozen_object (freeze_fields fields)

  pub freeze_items : JsonItems → FrozenItems
  freeze_items nil = no_items
  freeze_items (item v rest) = frozen_item (freeze v) (freeze_items rest)

  pub freeze_fields : JsonFields → FrozenFields
  freeze_fields end = no_fields
  freeze_fields (field key v rest) = insert_field key (freeze v) (freeze_fields rest)

-- `_thaw`
unfoldable mutual
  pub thaw : FrozenValue → JsonValue
  thaw frozen_null = null
  thaw (frozen_bool b) = bool b
  thaw (frozen_int n) = int n
  thaw (frozen_str s) = str s
  thaw (frozen_tuple items) = list (thaw_items items)
  thaw (frozen_object fields) = dict (thaw_fields fields)

  pub thaw_items : FrozenItems → JsonItems
  thaw_items no_items = nil
  thaw_items (frozen_item v rest) = item (thaw v) (thaw_items rest)

  pub thaw_fields : FrozenFields → JsonFields
  thaw_fields no_fields = end
  thaw_fields (frozen_field key v rest) = field key (thaw v) (thaw_fields rest)

-- `EvidenceArtifact`
pub record EvidenceArtifact : Type 0 where
  pub root : FrozenFields

-- `artifact_payload`
unfoldable pub artifact_payload : EvidenceArtifact → JsonFields
artifact_payload artifact = thaw_fields artifact.root

-- A check that has no state of its own.
abbrev within : {A : Type 0} → M Unit A → M ℕ A
within check nodes = let (o, _) = check tt in (o, nodes)

-- `evidence_artifact_from_payload`, with a validator that may do nothing.
unfoldable pub evidence_artifact_from_payload :
    (JsonFields → M Unit Unit) → JsonFields → M ℕ EvidenceArtifact
evidence_artifact_from_payload validator payload = do
  validate_limits (dict payload) "artifact" 0
  within (validate_envelope payload)
  within (validator payload)
  pure (record { root = freeze_fields payload })

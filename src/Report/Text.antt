-- ===== src/Report/Text.antt =====
-- `_validate_projected_text` of src/effectprobe/_mcp_reports.py. `unsafe_character` says of which
-- characters `unicodedata.category` is Cc, Cf or Cs.
pub mod Safe
use Prim.Native.String as Str
use Prim.Native.Char.{Char}
use effect_probe.Prelude.{ℕ, suc, String, Bool, true, false, ◌||◌, [], ◌∷◌, format, if◌then◌else◌}
use effect_probe.Exception.{other, M, pure, raise, ◌>>=◌, ◌>>◌}
use effect_probe.Artifact.{
  JsonValue, null, bool, int, str, list, dict, JsonItems, nil, item, JsonFields, end, field,
}
use effect_probe.Report.Checks.{at_key, at_index}

module _ (unsafe_character : Char → Bool) where
  unfoldable pub has_unsafe : String → Bool
  has_unsafe Str.[] = false
  has_unsafe (Str.◌∷◌ c s) = unsafe_character c || has_unsafe s

  unfoldable pub check_text : {S : Type 0} → String → String → M S Unit
  check_text s path =
      if has_unsafe s
      then raise (
          other (record {
            type_name = "ValueError";
            text = format (path ∷ " contains a control or format character" ∷ []);
          }))
      else pure tt

  unfoldable mutual
    pub validate_projected_text : {S : Type 0} → JsonValue → String → M S Unit
    validate_projected_text null path = pure tt
    validate_projected_text (bool b) path = pure tt
    validate_projected_text (int n) path = pure tt
    validate_projected_text (str s) path = check_text s path
    validate_projected_text (list items) path = validate_items_text items path 0
    validate_projected_text (dict fields) path = validate_fields_text fields path

    pub validate_items_text : {S : Type 0} → JsonItems → String → ℕ → M S Unit
    validate_items_text nil path index = pure tt
    validate_items_text (item v rest) path index =
        validate_projected_text v (at_index path index) >> validate_items_text rest path (suc index)

    pub validate_fields_text : {S : Type 0} → JsonFields → String → M S Unit
    validate_fields_text end path = pure tt
    validate_fields_text (field key v rest) path =
        check_text key (at_key path "<key>")
        >> validate_projected_text v (at_key path key)
        >> validate_fields_text rest path

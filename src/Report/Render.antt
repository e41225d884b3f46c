-- ===== src/Report/Render.antt =====
-- The renderers of the terminal and the JSON report (src/effectprobe/_mcp_reports.py). `dumps` is `json.dumps` with the options of the source.
use Prim.Native.Char.{Char}
use effect_probe.Prelude.{String, Bool, [], ◌∷◌, format, if◌then◌else◌}
use effect_probe.Exception.{
  Exc, other, Outcome, value, raised, M, pure, raise, ◌>>=◌, ◌>>◌, type_name,
}
use effect_probe.Artifact.{dict, JsonFields}
use effect_probe.Artifact.Objects.{member, join}
use effect_probe.Report.{McpReport}
use effect_probe.Report.Checks.{value_errors}
use effect_probe.Report.Payload.{report_payload}
use effect_probe.Report.Text.{validate_projected_text}
use effect_probe.Report.Lines.{terminal_lines}

abbrev rendering_error : String → Exc
rendering_error message = other (record { type_name = "McpReportRenderingError"; text = message })

-- The `except ValueError` clause of `_require_renderable`.
abbrev unsafe_text : {S : Type 0} → Exc → M S Unit
unsafe_text e =
    if member (type_name e) value_errors
    then raise (rendering_error "private report contains unsafe text")
    else raise e

abbrev guarded : {S : Type 0} → Outcome Unit × Unit {0} → M S Unit
guarded (value u, _) = pure tt
guarded (raised e, _) = unsafe_text e

-- The `except (TypeError, ValueError)` clauses of the renderers.
abbrev pub serialized : {S : Type 0} → String → Outcome String → M S String
serialized message (value text) = pure (format (text ∷ "\n" ∷ []))
serialized message (raised e) =
    if member (type_name e) ("TypeError" ∷ value_errors)
    then raise (rendering_error message)
    else raise e

module _ (unsafe_character : Char → Bool) where
  -- `_require_renderable`
  unfoldable pub require_renderable : {S : Type 0} → McpReport → M S JsonFields
  require_renderable r = do
    guarded (validate_projected_text unsafe_character (dict (report_payload r)) "report" tt)
    pure (report_payload r)

  -- `render_terminal_report`
  unfoldable pub render_terminal_report : {S : Type 0} → McpReport → M S String
  render_terminal_report r = do
    payload ← require_renderable r
    pure (format (join "\n" (terminal_lines r) ∷ "\n" ∷ []))

  -- `render_json_report`
  unfoldable pub render_json_report :
      {S : Type 0} → (JsonFields → Outcome String) → McpReport → M S String
  render_json_report dumps r = do
    payload ← require_renderable r
    serialized "private JSON report serialization failed" (dumps payload)

-- ===== src/Cli/Execute/Runs.antt =====
-- What a run of the command line does (src/effectprobe/_cli.py, _execute, _build_report and
-- _render).
use effect_probe.Prelude.{◌≡◌, ◌↔◌, inl, inr, ap, String, [], ◌∷◌, Bool-cases, str_eq, str_eq_iff}
use effect_probe.Exception.{Outcome, value}
use effect_probe.Exception.Bind.{bind-value, bind_passes}
use effect_probe.Store.{Mode}
use effect_probe.Cli.{
  ReportFormat, run_command, Services, Host, preflight_destination, require_distinct,
  preflight_report_output,
}
use effect_probe.Cli.Output.{emit}
use effect_probe.Cli.Execute.{render, build, report_on, execute}
use effect_probe.Cli.Execute.Preflight.{
  catch-value, catch_passes, IsFree, IsClear, preflight_destination_iff, require_distinct_iff,
}

-- A report is rendered in the wanted format.
pub Renders : {W R : Type 0} → Services W R → ReportFormat → R → String → W → W → Type 0
Renders services ReportFormat.terminal r text w w' = services.render_terminal r w ≡ (value text, w')
Renders services ReportFormat.json r text w w' = services.render_json r w ≡ (value text, w')
Renders services ReportFormat.junit r text w w' = services.render_junit r w ≡ (value text, w')

-- The steps of a run that returns, in their order.
pub record Ran {W R : Type 0} (host : Host W) (services : Services W R) (mode : Mode)
    (artifact : String) (wanted : ReportFormat) (destination : String) (w w' : W) : Type 0 where
  pub checked : W
  pub cleared : W
  pub ran : W
  pub reported : W
  pub written : W
  pub report : R
  pub text : String
  pub artifact_free : IsFree host artifact w checked
  pub destination_clear : IsClear host destination artifact checked cleared
  pub recorded : services.record_evidence mode artifact cleared ≡ (value tt, ran)
  pub built : services.build_report artifact ran ≡ (value report, reported)
  pub rendered : Renders services wanted report text reported written
  pub emitted : emit host text destination written ≡ (value tt, w')

module _ {W : Type 0} (host : Host W) where
  preflight_report_output_iff :
      (destination artifact : String) (w w' : W)
      → (preflight_report_output host destination (artifact ∷ []) w ≡ (value tt, w'))
        ↔ IsClear host destination artifact w w'
  unfolding preflight_report_output
  preflight_report_output_iff destination artifact w w' =
      elim (Bool-cases (str_eq destination "-")) [
        | inl dash ↦
            let named = (str_eq_iff destination "-").0 dash in
            (
              λ e. inl (named, ap (λ (p : Outcome Unit × W). p.1) (rw dash at e)),
              λ clear. elim clear [
                | inl (_, same) ↦ rw dash (ap (λ s. (value tt, s)) same)
                | inr (other, _) ↦ absurd (other named)
              ],
            )
        | inr other ↦
            let unnamed : ¬ (destination ≡ "-") =
              λ e. cc ((str_eq_iff destination "-").1 e, other) in
            (
              λ e.
                  let (_, w₁, e₁, e₂) =
                    bind-value (require_distinct host (destination ∷ artifact ∷ [])) _ w
                      (rw other at e) in
                  inr (
                    unnamed,
                    (
                      w₁,
                      (require_distinct_iff host destination artifact w w₁).0 e₁,
                      (preflight_destination_iff host destination w₁ w').0 e₂,
                    ),
                  ),
              λ clear. elim clear [
                | inl (named, _) ↦ absurd (unnamed named)
                | inr (_, (w₁, apart, free)) ↦ rw other (
                    bind_passes _ _ ((require_distinct_iff host destination artifact w w₁).1 apart)
                      ((preflight_destination_iff host destination w₁ w').1 free))
              ],
            )
      ]

module _ {W R : Type 0} (services : Services W R) where
  render_iff :
      (r : R) (wanted : ReportFormat) (text : String) (w w' : W)
      → (render r wanted services w ≡ (value text, w')) ↔ Renders services wanted r text w w'
  unfolding render Renders
  render_iff r ReportFormat.terminal text w w' = (catch-value _ _ _ w, catch_passes _ _ _ w)
  render_iff r ReportFormat.json text w w' = (catch-value _ _ _ w, catch_passes _ _ _ w)
  render_iff r ReportFormat.junit text w w' = (catch-value _ _ _ w, catch_passes _ _ _ w)

-- A run command returns and leaves a world exactly when these steps, one after the other, lead to
-- that world: the artifact path is not -, its inspection finds no file, and its parent is a
-- directory; the report goes to the standard output, or to a path of another absolute path that is
-- free in the same way; and then the evidence is recorded, the report is built from the artifact
-- and rendered in the wanted format, and the rendered text is emitted.
pub run-Ran_iff :
    {W R : Type 0} (host : Host W) (services : Services W R) (mode : Mode) (artifact : String)
    (wanted : ReportFormat) (destination : String) (w w' : W)
    → (execute host services (run_command mode artifact wanted destination) w ≡ (value tt, w'))
      ↔ Ran host services mode artifact wanted destination w w'
unfolding execute report_on build
run-Ran_iff host services mode artifact wanted destination w w' = (
  λ e.
      let (_, w₁, e₁, rest₁) = bind-value (preflight_destination host artifact) _ w e in
      let (_, w₂, e₂, rest₂) =
        bind-value (preflight_report_output host destination (artifact ∷ [])) _ w₁ rest₁ in
      let (_, w₃, e₃, rest₃) = bind-value _ _ w₂ rest₂ in
      let (r, w₄, e₄, rest₄) = bind-value _ _ w₃ rest₃ in
      let (text, w₅, e₅, e₆) = bind-value (render r wanted services) _ w₄ rest₄ in
      record {
        checked = w₁;
        cleared = w₂;
        ran = w₃;
        reported = w₄;
        written = w₅;
        report = r;
        text = text;
        artifact_free = (preflight_destination_iff host artifact w w₁).0 e₁;
        destination_clear = (preflight_report_output_iff host destination artifact w₁ w₂).0 e₂;
        recorded = catch-value _ _ (services.record_evidence mode artifact) w₂ e₃;
        built = catch-value _ _ (services.build_report artifact) w₃ e₄;
        rendered = (render_iff services r wanted text w₄ w₅).0 e₅;
        emitted = e₆;
      },
  λ h. bind_passes _ _ ((preflight_destination_iff host artifact w h.checked).1 h.artifact_free) (
      bind_passes _ _
        ((preflight_report_output_iff host destination artifact h.checked h.cleared).1
          h.destination_clear)
        (bind_passes _ _ (catch_passes _ _ _ h.cleared h.recorded) (
          bind_passes _ _ (catch_passes _ _ _ h.ran h.built) (
            bind_passes _ _
              ((render_iff services h.report wanted h.text h.reported h.written).1 h.rendered)
              h.emitted)))),
)

-- ===== src/Cli/Main/Status.antt =====
-- The exit status of src/effectprobe/_cli.py (main).
use effect_probe.Prelude.{
  ℕ, ◌≡◌, ◌≢◌, ◌↔◌, refl, ap, ◌∙◌, sym, String, List, arith, Bool-cases, inl, inr,
}
use effect_probe.Exception.{Outcome, Exc, value, raised, M, pure, is_exception, ◌>>=◌, ◌>>◌}
use effect_probe.Exception.Bind.{bind-value, bind_passes, bind_returns, value_eq, raised-ne-value}
use effect_probe.Exception.Catch.{catch, handled}
use effect_probe.Cli.{Services, Host, is_cli_failure}
use effect_probe.Cli.Execute.{execute}
use effect_probe.Cli.Main.{
  Values, Parsed, parsed, command_of, diagnostic, status_of, is_caught, perform, main,
}

module _ {W : Type 0} (host : Host W) where
  failing-status :
      (message : M W Unit) (code : ℕ) (w : W) {n : ℕ} {w' : W}
      → (message >> pure code) w ≡ (value n, w')
      → n ≡ code
  failing-status message code w e =
      let (_, s₁, _, e₁) = bind-value message _ w e in sym (value_eq e₁)

  -- No exception has the status of success.
  status_of-fails : (e : Exc) (w : W) {w' : W} → status_of host e w ≢ (value 0, w')
  unfolding status_of
  status_of-fails e w h = elim (Bool-cases (is_cli_failure e)) [
    | inl failed ↦
        let one = failing-status (diagnostic host _) 1 w (rw failed at h) in absurd (ground arith)
    | inr other ↦ elim (Bool-cases (is_exception e)) [
      | inl internal ↦
          let one = failing-status (diagnostic host _) 1 w (rw (other, internal) at h) in
          absurd (ground arith)
      | inr stopped ↦
          let many = failing-status (diagnostic host _) 130 w (rw (other, stopped) at h) in
          absurd (ground arith)
    ]
  ]

  handled-zero :
      (o : Outcome ℕ) (w : W) {w' : W}
      → handled is_caught (status_of host) o w ≡ (value 0, w')
      → Path (Outcome ℕ × W) (o, w) (value 0, w')
  handled-zero (value n) w h = h
  handled-zero (raised e) w h = elim (Bool-cases (is_caught e)) [
    | inl taken ↦ absurd (status_of-fails e w (rw taken at h))
    | inr left ↦ absurd (raised-ne-value (rw left at h))
  ]

-- For arguments that the parser takes, main returns the status 0 and leaves a world exactly when
-- the command that it parsed is executed without an exception and leaves that world.
pub main-zero_iff :
    {W R : Type 0} (host : Host W) (services : Services W R) (parse_args : List String → M W Parsed)
    (argv : List String) (v : Values) (w w₁ w' : W)
    → parse_args argv w ≡ (value (parsed v), w₁)
    → (main host services parse_args argv w ≡ (value 0, w'))
      ↔ (execute host services (command_of v) w₁ ≡ (value tt, w'))
unfolding main catch
main-zero_iff host services parse_args argv v w w₁ w' parses =
    let body = parse_args argv >>= perform host services parse_args in
    let runs =
      bind_returns (parse_args argv) (perform host services parse_args) {s = w} {s' = w₁} parses in
    (
      λ e.
          let whole = sym runs ∙ handled-zero host (body w).0 (body w).1 e in
          let (_, s₁, done, ended) =
            bind-value (execute host services (command_of v)) (λ _. pure 0) w₁ whole in
          done ∙ ap (λ (p : Outcome ℕ × _). (value tt, p.1)) ended,
      λ e.
          let whole =
            runs ∙ bind_passes (execute host services (command_of v)) (λ _. pure 0) e refl in
          ap (λ (p : Outcome ℕ × _). handled is_caught (status_of host) p.0 p.1) whole,
    )

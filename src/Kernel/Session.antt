-- ===== src/Kernel/Session.antt =====
-- `WorldSession` of src/effectprobe/_semantic_kernel.py, and the `with` statement on it.
use effect_probe.Prelude.{Option, none, some, if◌then◌else◌}
use effect_probe.Exception.{
  Exc, Outcome, value, raised, is_exception, provision_error, provision_rollback_error,
  cleanup_error, cleanup_body_error,
}
use effect_probe.Kernel.Verdicts.{CleanupStatus}
use effect_probe.Kernel.Types.{Types, World, WorldSession}

-- `WorldCleanupError(cause, exc_value)`
abbrev pub cleanup_failure : Exc → Option Exc → Exc
cleanup_failure cause none = cleanup_error cause
cleanup_failure cause (some body) = cleanup_body_error cause body

-- The exception that ended a block.
abbrev pub ended_by : {A : Type 0} → Outcome A → Option Exc
ended_by (value a) = none
ended_by (raised e) = some e

module _ {T : Types} where
  -- The `except` clause of `__enter__`: the rollback, and the exception that reports it.
  unfoldable pub roll_back :
      Exc → WorldSession T → T.Outer → Outcome (World T) × WorldSession T × T.Outer
  roll_back cause session w =
      let (o, w') = session.cleanup none w in
      elim o [
        | value u ↦ (
          raised (provision_error cause),
          record session { cleanup_status = CleanupStatus.pass },
          w',
        )
        | raised e ↦
            if is_exception e
            then (
              raised (provision_rollback_error cause e),
              record session { cleanup_status = CleanupStatus.error },
              w',
            )
            else (raised e, session, w')
      ]

  -- `__enter__` behind the call of `_provision`.
  unfoldable pub provisioned :
      Outcome (World T) → WorldSession T → T.Outer → Outcome (World T) × WorldSession T × T.Outer
  unfolding roll_back
  provisioned (value world) session w = (value world, record session { world = some world }, w)
  provisioned (raised cause) session w =
      if is_exception cause then roll_back cause session w else (raised cause, session, w)

  -- `__enter__`
  unfoldable pub enter : WorldSession T → T.Outer → Outcome (World T) × WorldSession T × T.Outer
  unfolding provisioned
  enter session w = let (o, w') = session.provision w in provisioned o session w'

  -- `__exit__`, which returns `False`, given the exception that ended the block.
  unfoldable pub exit :
      WorldSession T → Option Exc → T.Outer → Outcome Unit × WorldSession T × T.Outer
  exit session exc_value w =
      let (o, w') = session.cleanup session.world w in
      elim o [
        | value u ↦ (value tt, record session { cleanup_status = CleanupStatus.pass }, w')
        | raised cause ↦
            if is_exception cause
            then (
              raised (cleanup_failure cause exc_value),
              record session { cleanup_status = CleanupStatus.error },
              w',
            )
            else (raised cause, session, w')
      ]

-- ===== src/Kernel/Frames.antt =====
-- The local variables of `_run_clean` and `_run_perturbed` (src/effectprobe/_semantic_kernel.py),
-- and the statements that change them. Those that outlive the `try` statement (`session`, `evidence`
-- or `run`, `results`, `errors` and `stage`) are a record beside the outer state, so that what a
-- block assigned before it raised stays assigned.
use effect_probe.Prelude.{String, List, [], ◌++◌, Option, none, some}
use effect_probe.Exception.{Outcome, value, raised, M}
use effect_probe.Kernel.Verdicts.{InvariantResult, ErrorRecord, CleanupStatus}
use effect_probe.Kernel.Types.{Types, World, WorldSession}
use effect_probe.Kernel.Session.{enter, exit, ended_by}

-- `E` is the evidence of the trial: `evidence` in `_run_clean`, `run` in `_run_perturbed`.
pub record Frame (T : Types) (E : Type 0) : Type 0 where
  pub outer : T.Outer
  pub session : Option (WorldSession T)
  pub evidence : Option E
  pub results : List InvariantResult
  pub errors : List ErrorRecord
  pub stage : String

-- The four results of a trial.
pub record Trial (E : Type 0) : Type 0 where
  pub evidence : Option E
  pub results : List InvariantResult
  pub errors : List ErrorRecord
  pub cleanup : CleanupStatus

module _ {T : Types} where
  -- `session.cleanup_status if session is not None else CleanupStatus.NOT_ATTEMPTED`
  abbrev pub session_status : Option (WorldSession T) → CleanupStatus
  session_status none = CleanupStatus.not_attempted
  session_status (some session) = session.cleanup_status

module _ {T : Types} {E : Type 0} where
  abbrev pub new_frame : T.Outer → Frame T E
  new_frame w = record {
    outer = w;
    session = none;
    evidence = none;
    results = [];
    errors = [];
    stage = "world_factory";
  }

  -- An action on the outer state alone.
  abbrev pub on_outer : {A : Type 0} → M T.Outer A → M (Frame T E) A
  on_outer m fr = let (o, w) = m fr.outer in (o, record fr { outer = w })

  abbrev pub set_stage : String → M (Frame T E) Unit
  set_stage stage fr = (value tt, record fr { stage = stage })

  abbrev pub set_session : WorldSession T → M (Frame T E) Unit
  set_session session fr = (value tt, record fr { session = some session })

  abbrev pub set_evidence : E → M (Frame T E) Unit
  set_evidence evidence fr = (value tt, record fr { evidence = some evidence })

  -- `results, evaluation_errors = evaluated`, and `errors.extend(evaluation_errors)`
  abbrev pub set_evaluated : List InvariantResult × List ErrorRecord → M (Frame T E) Unit
  set_evaluated (results, evaluation_errors) fr =
      (value tt, record fr { results = results; errors = fr.errors ++ evaluation_errors })

  -- An exception of `__exit__` takes the place of that of the body.
  abbrev pub overridden_by : Outcome Unit → Outcome Unit → M (Frame T E) Unit
  overridden_by (value u) o fr = (o, fr)
  overridden_by (raised e) o fr = (raised e, fr)

  -- The end of a `with` block.
  unfoldable pub leave : WorldSession T → Outcome Unit → M (Frame T E) Unit
  leave session o fr =
      let (x, session', w) = exit session (ended_by o) fr.outer in
      overridden_by x o (record fr { outer = w; session = some session' })

  -- A `with` block behind its `__enter__`.
  abbrev pub entered_with :
      Outcome (World T) → WorldSession T → (World T → M (Frame T E) Unit) → M (Frame T E) Unit
  entered_with (value world) session body fr =
      let (o, after) = body world fr in leave session o after
  entered_with (raised e) session body fr = (raised e, fr)

  -- `with session as world: body(world)`
  unfoldable pub with_session : WorldSession T → (World T → M (Frame T E) Unit) → M (Frame T E) Unit
  unfolding leave
  with_session session body fr =
      let (o, session', w) = enter session fr.outer in
      entered_with o session' body (record fr { outer = w; session = some session' })

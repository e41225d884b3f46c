-- ===== src/Kernel/Cleanup.antt =====
-- One cleanup attempt for each session that is entered (src/effectprobe/_semantic_kernel.py,
-- WorldSession).
use effect_probe.Prelude.{ℕ, suc, ◌≡◌, ◌≢◌, refl, ap, ◌∙◌, true, Option, some, none, arith}
use effect_probe.Exception.{Exc, Outcome, value, raised, M, is_exception}
use effect_probe.Kernel.Types.{Types, World, WorldSession}
use effect_probe.Kernel.Session.{roll_back, provisioned, enter, exit, ended_by}
use effect_probe.Kernel.Frames.{Frame, overridden_by, leave, entered_with, with_session}

-- `cleanups` counts the cleanup attempts in the outer state: each call of `cleanup` adds one,
-- whether it returns or raises, and nothing else that the block runs does.
pub record Counts {T : Types} {E : Type 0} (cleanups : T.Outer → ℕ) (session : WorldSession T)
    (body : World T → M (Frame T E) Unit) : Type 0 where
  pub by_cleanup :
      (world : Option (World T)) (w : T.Outer)
      → cleanups (session.cleanup world w).1 ≡ suc (cleanups w)
  pub by_provision : (w : T.Outer) → cleanups (session.provision w).1 ≡ cleanups w
  pub by_body :
      (world : World T) (fr : Frame T E) → cleanups (body world fr).1.outer ≡ cleanups fr.outer

abbrev Attempts : {T : Types} → (T.Outer → ℕ) → WorldSession T → Type 0
Attempts {T} cleanups session =
    (world : Option (World T)) (w : T.Outer)
    → cleanups (session.cleanup world w).1 ≡ suc (cleanups w)

module _ {T : Types} (cleanups : T.Outer → ℕ) where
  cleanups-exit :
      (session : WorldSession T) (x : Option Exc) (w : T.Outer)
      → Attempts cleanups session
      → cleanups (exit session x w).2 ≡ suc (cleanups w)
  unfolding exit
  cleanups-exit session x w h = ground (arith, h session.world w)

  cleanups-roll_back :
      (session : WorldSession T) (x : Exc) (w : T.Outer)
      → Attempts cleanups session
      → cleanups (roll_back x session w).2 ≡ suc (cleanups w)
  unfolding roll_back
  cleanups-roll_back session x w h = ground (arith, h none w)

  roll_back-raised :
      (session : WorldSession T) (cause : Exc) (w : T.Outer) (world : World T)
      → (roll_back cause session w).0 ≢ value world
  unfolding roll_back
  roll_back-raised session cause w world e = ground arith

  module _ {E : Type 0} where
    overridden_by-outer : (x o : Outcome Unit) (fr : Frame T E) → (overridden_by x o fr).1 ≡ fr
    overridden_by-outer (value u) o fr = refl
    overridden_by-outer (raised e) o fr = refl

    cleanups-leave :
        (session : WorldSession T) (o : Outcome Unit) (fr : Frame T E)
        → Attempts cleanups session
        → cleanups (leave session o fr).1.outer ≡ suc (cleanups fr.outer)
    unfolding leave
    cleanups-leave session o fr h =
        let (x, session', w) = exit session (ended_by o) fr.outer in
        ap (λ (f : Frame T E). cleanups f.outer)
          (overridden_by-outer x o (record fr { outer = w; session = some session' }))
        ∙ cleanups-exit session (ended_by o) fr.outer h

    entered_with-raised :
        (o : Outcome (World T)) (session : WorldSession T) (body : World T → M (Frame T E) Unit)
        (fr : Frame T E)
        → ((world : World T) → o ≢ value world)
        → (entered_with o session body fr).1 ≡ fr
    entered_with-raised (value world) session body fr h = absurd (h world refl)
    entered_with-raised (raised e) session body fr h = refl

    cleanups-provisioned :
        (o : Outcome (World T)) (session : WorldSession T) (body : World T → M (Frame T E) Unit)
        (fr : Frame T E) (w : T.Outer)
        → Counts cleanups session body
        → ((x : Exc) → o ≡ raised x → is_exception x ≡ true)
        → let (o', session', w') = provisioned o session w in
          cleanups
            (entered_with o' session' body
              (record fr { outer = w'; session = some session' })).1.outer
          ≡ suc (cleanups w)
    unfolding provisioned
    cleanups-provisioned (value world) session body fr w counts h =
        let entered : Frame T E = record fr {
          outer = w;
          session = some (record session { world = some world });
        } in
        let (b, after) = body world entered in
        cleanups-leave (record session { world = some world }) b after counts.by_cleanup
        ∙ ap suc (counts.by_body world entered)
    cleanups-provisioned (raised x) session body fr w counts h =
        let (o', session', w') = roll_back x session w in
        rw (h x refl) (
          ap (λ (f : Frame T E). cleanups f.outer)
            (entered_with-raised o' session' body
              (record fr { outer = w'; session = some session' }) (roll_back-raised session x w))
          ∙ cleanups-roll_back session x w counts.by_cleanup)

    -- A with statement on a world session whose provisioning is not interrupted attempts exactly
    -- one cleanup, however its provisioning, its body and that cleanup end, counted in an outer
    -- state that only the cleanup changes.
    pub with_session-cleanups :
        (session : WorldSession T) (body : World T → M (Frame T E) Unit) (fr : Frame T E)
        → Counts cleanups session body
        → ((x : Exc) → (session.provision fr.outer).0 ≡ raised x → is_exception x ≡ true)
        → cleanups (with_session session body fr).1.outer ≡ suc (cleanups fr.outer)
    unfolding with_session enter
    with_session-cleanups session body fr counts uninterrupted =
        let (o, w) = session.provision fr.outer in
        cleanups-provisioned o session body fr w counts uninterrupted
        ∙ ap suc (counts.by_provision fr.outer)

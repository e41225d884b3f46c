-- ===== src/Identity/Distinct.antt =====
-- The identities of one trial are told apart (src/effectprobe/_lost_result.py, identity_for).
use text.Mathlib.TextLemmas.{append_cancel_left, append_cancel_right}
use effect_probe.Prelude.{ℕ, ◌≡◌, ◌≢◌, ap, arith, decimal, str_eq_iff}
use effect_probe.Identity.{OperationId, TrialId, AttemptId, identity_for}

module _ (operation_id : OperationId) (trial_id : TrialId) where
  -- Within one operation and trial, equal attempt identities come from equal printed ordinals.
  pub identity_for-attempt :
      (m n : ℕ)
      → (identity_for operation_id trial_id m).attempt_id
        ≡ (identity_for operation_id trial_id n).attempt_id
      → decimal m ≡ decimal n
  unfolding identity_for
  identity_for-attempt m n e = append_cancel_right _ _ "" (
      append_cancel_left "/" _ _ (
        append_cancel_left trial_id.value _ _ (
          append_cancel_left "/" _ _ (
            append_cancel_left operation_id.value _ _
              (append_cancel_left "attempt/" _ _ (ap (λ (a : AttemptId). a.value) e))))))

  -- Within one operation and trial, the first and the second attempt have different attempt
  -- identities.
  pub identity_for-first-second :
      (identity_for operation_id trial_id 1).attempt_id
      ≢ (identity_for operation_id trial_id 2).attempt_id
  unfolding decimal
  identity_for-first-second e = ground (arith, str_eq_iff "1" "2", identity_for-attempt 1 2 e)

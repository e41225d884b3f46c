-- ===== src/Exception.antt =====
-- Python exceptions as values, and effects on an outer state.
--
-- The exception classes are those that src/effectprobe/_lost_result.py and
-- src/effectprobe/_semantic_kernel.py declare; `other` is any other subclass of `Exception`, and
-- `interrupt` a `BaseException` that is no `Exception`, which `except Exception` lets through.
pub mod Bind
pub mod Triple
pub mod Returns
pub mod Keeps
pub mod Catch
use effect_probe.Prelude.{String, ◌≡◌, Bool, true, false, [], ◌∷◌, format}
use effect_probe.Identity.{AttemptIdentity}

-- What `type(error).__name__` and `str(error)` show.
pub record Failure : Type 0 where
  pub type_name : String
  pub text : String

pub data Exc : Type 0 where
  other interrupt : Failure → Exc
  result_lost : Exc
  boundary_not_reached fault_not_propagated : AttemptIdentity → String → Exc
  -- `WorldProvisionError(cause, None)`
  provision_error : Exc → Exc
  -- `WorldProvisionError(cause, cleanup_error)`
  provision_rollback_error : Exc → Exc → Exc
  -- `WorldCleanupError(cause, None)`
  cleanup_error : Exc → Exc
  -- `WorldCleanupError(cause, body_error)`
  cleanup_body_error : Exc → Exc → Exc
  -- `CaseConfigurationError(message)`
  configuration_error : String → Exc
  -- `CasePreflightError(cause)`
  preflight_error : Exc → Exc

-- `isinstance(error, Exception)`
abbrev pub is_exception : Exc → Bool
is_exception (interrupt f) = false
is_exception _ = true

unfoldable pub type_name : Exc → String
type_name (other f) = f.type_name
type_name (interrupt f) = f.type_name
type_name result_lost = "_ProviderResultLost"
type_name (boundary_not_reached i b) = "BoundaryNotReached"
type_name (fault_not_propagated i b) = "FaultNotPropagated"
type_name (provision_error c) = "WorldProvisionError"
type_name (provision_rollback_error c d) = "WorldProvisionError"
type_name (cleanup_error c) = "WorldCleanupError"
type_name (cleanup_body_error c d) = "WorldCleanupError"
type_name (configuration_error m) = "CaseConfigurationError"
type_name (preflight_error c) = "CasePreflightError"

-- `str(error)`
unfoldable pub text_of : Exc → String
text_of (other f) = f.text
text_of (interrupt f) = f.text
text_of result_lost = ""
text_of (boundary_not_reached i b) = format (b ∷ " was not reached by " ∷ i.attempt_id.value ∷ [])
text_of (fault_not_propagated i b) =
    format (b ∷ " loss was caught before leaving " ∷ i.attempt_id.value ∷ [])
text_of (provision_error c) = text_of c
text_of (provision_rollback_error c d) = text_of c
text_of (cleanup_error c) = text_of c
text_of (cleanup_body_error c d) = text_of c
text_of (configuration_error m) = m
text_of (preflight_error c) = text_of c

pub data Outcome (A : Type 0) : Type 0 where
  value : A → Outcome A
  raised : Exc → Outcome A

pub raised-injective : {A : Type 0} {x y : Exc} → Path (Outcome A) (raised x) (raised y) → x ≡ y
raised-injective e = cc e

-- What was written before a raise stays written, so the state comes back beside the exception.
abbrev pub M : Type 0 → Type 0 → Type 0
M S A = S → Outcome A × S

module _ {S A : Type 0} where
  abbrev pub pure : A → M S A
  pure a s = (value a, s)

  abbrev pub raise : Exc → M S A
  raise e s = (raised e, s)

module _ {S A B : Type 0} where
  abbrev pub resume : Outcome A → (A → M S B) → M S B
  resume (value a) f s = f a s
  resume (raised e) f s = (raised e, s)

  infixl 5 ◌>>=◌ ◌>>◌
  unfoldable pub ◌>>=◌ : M S A → (A → M S B) → M S B
  ◌>>=◌ m f s = let (r, s') = m s in resume r f s'

  abbrev pub ◌>>◌ : M S A → M S B → M S B
  m >> n = m >>= λ _. n

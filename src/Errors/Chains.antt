-- ===== src/Errors/Chains.antt =====
-- `errors.Is` on the tree of an error.
use stricklysoft_core.Prelude.{Bool, false, ◌||◌, String, ◌==◌}
use stricklysoft_core.Errors.{
  GoError, Error, Cause, plain, named, wrapped, joined, platform, error, no_cause, caused_by,
}

-- `errors.Is(err, target)` with an error variable as the target: the whole tree is searched.
unfoldable mutual
  pub is_error : String → GoError → Bool
  is_error target (plain m) = false
  is_error target (named n m) = n == target
  is_error target (wrapped m e) = is_error target e
  is_error target (joined a b) = is_error target a || is_error target b
  is_error target (platform e) = is_platform_error target e

  pub is_platform_error : String → Error → Bool
  is_platform_error target (error c m cause d) = is_cause target cause

  pub is_cause : String → Cause → Bool
  is_cause target no_cause = false
  is_cause target (caused_by e) = is_error target e

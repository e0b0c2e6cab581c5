-- ===== src/Diagnostics/Check.antt =====
-- The errors of diagnostics/manager.go, and checks in a row: the first that fails decides. What an
-- error wraps (the text of fmt.Errorf) is left out.
use xray_checker_modify.Base.{
  Bool, true, false, Option, none, some, List, [], ◌∷◌, ◌≡◌, refl, All, arith,
}

pub data Error : Type 0 where
  invalid_schema invalid_request capacity unknown_session unknown_job duplicate_job : Error
  invalid_signature stale_observation stale_generation binding_mismatch : Error
  replay_observation duplicate_observation session_expired session_cancelled : Error
  invalid_transition : Error
  -- NewID returned an error
  no_id : Error

-- `nil` is `none`.
abbrev pub Check : Type 0
Check = Option Error

infixr 5 ◌>>◌
abbrev pub ◌>>◌ : Check → Check → Check
none >> later = later
some e >> later = some e

abbrev pub fail_if : Bool → Error → Check
fail_if true e = some e
fail_if false e = none

-- The first error of a list of checks.
unfoldable pub first_failure : List Check → Check
first_failure [] = none
first_failure (c ∷ cs) = c >> first_failure cs

pub first_failure-none : (cs : List Check) → first_failure cs ≡ none → All (λ c. c ≡ none) cs
unfolding first_failure
first_failure-none [] h = tt
first_failure-none (none ∷ cs) h = (refl, first_failure-none cs h)
first_failure-none (some e ∷ cs) h = ground arith

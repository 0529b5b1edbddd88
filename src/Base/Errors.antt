-- ===== src/Base/Errors.antt =====
-- Errors as values. An API error is read by its reason; any other is known by its message.
use cube_apiserver.Prelude.{Str, Bool, true, false, ◌≡◌, Option, none, some, if◌then◌else◌}

pub data Err : Type 0 where
  not_found already_exists conflict : Err
  other : Str → Err

-- k8serrors.IsNotFound, IsAlreadyExists and IsConflict, of an error that is not nil.
abbrev pub is_not_found : Err → Bool
is_not_found not_found = true
is_not_found _ = false

abbrev pub is_already_exists : Err → Bool
is_already_exists already_exists = true
is_already_exists _ = false

abbrev pub is_conflict : Err → Bool
is_conflict conflict = true
is_conflict _ = false

-- A pair of Go results of which the first counts only if the error is nil.
pub data Result {ℓ} (A : Type ℓ) : Type ℓ where
  ok : A → Result A
  err : Err → Result A

-- A typed client returns a pointer to a fresh zero object beside an error
-- (`result = &v1alpha1.User{}; err = … .Into(result)`).
abbrev pub value_or {ℓ} : {A : Type ℓ} → A → Result A → A
value_or zero (ok a) = a
value_or zero (err e) = zero

abbrev pub error_of {ℓ} : {A : Type ℓ} → Result A → Option Err
error_of (ok a) = none
error_of (err e) = some e

-- What is left of a creation where an object that exists already is no error: the client's zero
-- object.
abbrev pub tolerate {ℓ} : {A : Type ℓ} → A → Result A → Result A
tolerate zero (ok a) = ok a
tolerate zero (err e) = if is_already_exists e then ok zero else err e

-- What the code relies on in github.com/pkg/errors: `Wrap(err, message)`, nil exactly for nil.
pub record Wrapping : Type 0 where
  pub wrap : Option Err → Str → Option Err
  pub wrap_nil : (m : Str) → wrap none m ≡ none
  pub wrap_error : (e : Err) (m : Str) → (e' : Err) × (wrap (some e) m ≡ some e')

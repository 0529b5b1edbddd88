-- ===== src/Controller/Queue/Steps.antt =====
-- The early returns of the handlers of both controllers.
use cube_apiserver.Prelude.{Option, none, some, List, ◌≡◌, ap}
use cube_apiserver.Base.Errors.{Err, Result, ok, err}
use cube_apiserver.Base.Effect.{next, pure, give_back}
use cube_apiserver.Base.Trace.{
  Adds, Adds-pure, Adds-give_back, adds_rules, Avoids, Avoids-pure, Avoids-give_back, avoids_rules,
}
use cube_apiserver.Controller.Queue.{try, present, Outcome, done, failed, panicked}

-- The result of a handler that succeeds.
abbrev pub IsDone : Outcome → Type 0
IsDone r = r ≡ done

pub failed-ne-IsDone : (e : Err) → ¬ IsDone (failed e)
failed-ne-IsDone e h = cc

pub panicked-ne-IsDone : ¬ IsDone panicked
panicked-ne-IsDone h = cc

module _ {ℓ κ} {E : Type ℓ} {A : Type κ} where
  pub try-Avoids : (r : Result A) → Avoids {E = E} IsDone (try r)
  try-Avoids (ok a) = Avoids-pure a
  try-Avoids (err e) = Avoids-give_back _ (failed-ne-IsDone e)

  pub present-Avoids : (o : Option A) → Avoids {E = E} IsDone (present o)
  present-Avoids (some a) = Avoids-pure a
  present-Avoids none = Avoids-give_back _ panicked-ne-IsDone

module _ {ℓ κ ν} {E : Type ℓ} {A : Type κ} {P : E → Type ν} where
  pub try-Adds : (r : Result A) → Adds P (try r)
  try-Adds (ok a) = Adds-pure a
  try-Adds (err e) = Adds-give_back _

  pub present-Adds : (o : Option A) → Adds P (present o)
  present-Adds (some a) = Adds-pure a
  present-Adds none = Adds-give_back _

-- A handler does not succeed before its end.
pub ruleset early_rules =
    (avoids_rules, try-Avoids, present-Avoids, failed-ne-IsDone, panicked-ne-IsDone)

pub ruleset handler_rules = (adds_rules, try-Adds, present-Adds)

-- A result that the handler goes on from is its value, and trying it makes no call.
pub try-next {ℓ κ} :
    {E : Type ℓ} {A : Type κ} (x : Result A × List E) (a : A)
    → (try x.0 x.1).0 ≡ next a
    → x ≡ (ok a, (try x.0 x.1).1)
unfolding pure give_back
try-next {A = A} (ok b, h) a e = ap (λ (x : A). (ok x, h)) (cc)
try-next (err m, h) a e = absurd (cc)

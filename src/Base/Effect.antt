-- ===== src/Base/Effect.antt =====
-- Handlers that call the outside world and may return early. A run carries the history of its
-- calls, newest first; the answer to a call is a function of the history up to and with that call,
-- so nothing is assumed of what other clients do to the cluster in between.
use cube_apiserver.Prelude.{List, ◌∷◌, Bool, true, false}

-- What a piece of a handler comes to: a value to go on with, or the handler's return value.
pub data Step {ℓ κ} (R : Type ℓ) (A : Type κ) : Type (ℓ ⊔ κ) where
  next : A → Step R A
  leave : R → Step R A

abbrev pub Flow {ℓ κ ι} : Type ℓ → Type κ → Type ι → Type (ℓ ⊔ κ ⊔ ι)
Flow E R A = List E → Step R A × List E

unfoldable pub pure {ℓ κ ι} : {E : Type ℓ} {R : Type κ} {A : Type ι} → A → Flow E R A
pure a h = (next a, h)

-- An early return.
unfoldable pub give_back {ℓ κ ι} : {E : Type ℓ} {R : Type κ} {A : Type ι} → R → Flow E R A
give_back r h = (leave r, h)

-- Make the call `e`.
unfoldable pub ask {ℓ κ ι} : {E : Type ℓ} {R : Type κ} {A : Type ι} → E → (List E → A) → Flow E R A
ask e answer h = (next (answer (e ∷ h)), e ∷ h)

-- A call whose result is not used.
unfoldable pub emit {ℓ κ} : {E : Type ℓ} {R : Type κ} → E → Flow E R (Unit {0})
emit e h = (next tt, e ∷ h)

-- A step that is written on the history, within a longer one.
unfoldable pub call {ℓ κ ι} :
    {E : Type ℓ} {R : Type κ} {A : Type ι} → (List E → A × List E) → Flow E R A
call f h = (next (f h).0, (f h).1)

abbrev pub resume {ℓ κ ι ν} :
    {E : Type ℓ} {R : Type κ} {A : Type ι} {B : Type ν} → Step R A → (A → Flow E R B) → Flow E R B
resume (next a) f h = f a h
resume (leave r) f h = (leave r, h)

-- Opening this opens the pieces too.
infixl 5 ◌>>=◌ ◌>>◌
unfoldable pub ◌>>=◌ {ℓ κ ι ν} :
    {E : Type ℓ} {R : Type κ} {A : Type ι} {B : Type ν} → Flow E R A → (A → Flow E R B) → Flow E R B
unfolding pure give_back ask emit call
◌>>=◌ m f h = resume (m h).0 f (m h).1

abbrev pub ◌>>◌ {ℓ κ ν} :
    {E : Type ℓ} {R : Type κ} {B : Type ν} → Flow E R (Unit {0}) → Flow E R B → Flow E R B
m >> k = m >>= λ _. k

abbrev pub unless {ℓ κ} : {E : Type ℓ} {R : Type κ} → Bool → R → Flow E R (Unit {0})
unless true r = pure tt
unless false r = give_back r

abbrev pub result {ℓ} : {R : Type ℓ} → Step R R → R
result (next r) = r
result (leave r) = r

-- A whole handler, run after a history.
abbrev pub run {ℓ κ} : {E : Type ℓ} {R : Type κ} → Flow E R R → List E → R × List E
run m h = (result (m h).0, (m h).1)

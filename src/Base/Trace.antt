-- ===== src/Base/Trace.antt =====
-- What a piece of a handler adds to the history, one rule for each way to build a piece.
use cube_apiserver.Prelude.{
  ℕ, suc, List, [], ◌∷◌, Bool, true, false, ◌≡◌, refl, subst, if◌then◌else◌, arith,
}
use cube_apiserver.Base.Effect.{
  Step, next, leave, Flow, pure, give_back, ask, emit, call, resume, ◌>>=◌, result, run,
}

-- `h'` is `h` with newer events, each of which satisfies `P`.
pub data Since {ℓ κ} {E : Type ℓ} (P : E → Type κ) (h : List E) : List E → Type (ℓ ⊔ κ) where
  here : Since P h h
  more : {e : E} {h' : List E} → P e → Since P h h' → Since P h (e ∷ h')

pub Since-trans {ℓ κ} :
    {E : Type ℓ} {P : E → Type κ} {a b c : List E} → Since P a b → Since P b c → Since P a c
Since-trans s here = s
Since-trans s (more p t) = more p (Since-trans s t)

pub Since-mono {ℓ κ ι} :
    {E : Type ℓ} {P : E → Type κ} {Q : E → Type ι} {a b : List E}
    → ((e : E) → P e → Q e)
    → Since P a b
    → Since Q a b
Since-mono f here = here
Since-mono f (more p s) = more (f _ p) (Since-mono f s)

pub record Adds {ℓ κ ι ν} {E : Type ℓ} {R : Type κ} {A : Type ι} (P : E → Type ν) (m : Flow E R A)
    : Type (ℓ ⊔ ν) where
  pub at : (h : List E) → Since P h (m h).1

module _ {ℓ κ ι ν} {E : Type ℓ} {R : Type κ} {A : Type ι} {P : E → Type ν} where
  pub Adds-pure : (a : A) → Adds {R = R} P (pure a)
  unfolding pure
  Adds-pure a = record { at = λ h. here }

  pub Adds-give_back : (r : R) → Adds {A = A} P (give_back r)
  unfolding give_back
  Adds-give_back r = record { at = λ h. here }

  pub Adds-ask : (e : E) (f : List E → A) → P e → Adds {R = R} P (ask e f)
  unfolding ask
  Adds-ask e f p = record { at = λ h. more p here }

  pub Adds-call :
      (f : List E → A × List E) → ((h : List E) → Since P h (f h).1) → Adds {R = R} P (call f)
  unfolding call
  Adds-call f k = record { at = k }

  pub Adds-if :
      (b : Bool) (m n : Flow E R A)
      → (b ≡ true → Adds P m)
      → (b ≡ false → Adds P n)
      → Adds P (if b then m else n)
  Adds-if true m n km kn = km refl
  Adds-if false m n km kn = kn refl

module _ {ℓ κ ν} {E : Type ℓ} {R : Type κ} {P : E → Type ν} where
  pub Adds-emit : (e : E) → P e → Adds {R = R} P (emit e)
  unfolding emit
  Adds-emit e p = record { at = λ h. more p here }

module _ {ℓ κ ι μ ν} {E : Type ℓ} {R : Type κ} {A : Type ι} {B : Type μ} {P : E → Type ν} where
  resume-Adds :
      (s : Step R A) (f : A → Flow E R B) (h : List E)
      → ((a : A) → Adds P (f a))
      → Since P h (resume s f h).1
  resume-Adds (next a) f h k = (k a).at h
  resume-Adds (leave r) f h k = here

  pub Adds-bind :
      (m : Flow E R A) (f : A → Flow E R B) → Adds P m → ((a : A) → Adds P (f a)) → Adds P (m >>= f)
  unfolding ◌>>=◌
  Adds-bind m f km kf = record {
    at = λ h. Since-trans (km.at h) (resume-Adds (m h).0 f (m h).1 kf);
  }

pub ruleset adds_rules =
    (Adds-pure, Adds-give_back, Adds-ask, Adds-call, Adds-if, Adds-emit, Adds-bind)

-- The number of events that pass a test.
unfoldable pub count {ℓ} : {E : Type ℓ} → (E → Bool) → List E → ℕ
count test [] = 0
count test (e ∷ h) = if test e then suc (count test h) else count test h

-- Events that fail the test are not counted.
pub count-Since {ℓ} :
    {E : Type ℓ} (test : E → Bool) {h h' : List E}
    → Since (λ e. test e ≡ false) h h'
    → count test h' ≡ count test h
unfolding count
count-Since test here = refl
count-Since test (more p s) = ground (arith, count-Since test s)

-- `m` never returns early with a value that `Bad` describes.
pub record Avoids {ℓ κ ι ν} {E : Type ℓ} {R : Type κ} {A : Type ι} (Bad : R → Type ν)
    (m : Flow E R A) : Type (ℓ ⊔ κ ⊔ ι ⊔ ν) where
  pub at : (h : List E) (r : R) → (m h).0 ≡ leave r → ¬ Bad r

module _ {ℓ κ ι ν} {E : Type ℓ} {R : Type κ} {A : Type ι} {Bad : R → Type ν} where
  pub Avoids-pure : (a : A) → Avoids {E = E} Bad (pure a)
  unfolding pure
  Avoids-pure a = record { at = λ h r e. cc }

  pub Avoids-ask : (e : E) (f : List E → A) → Avoids Bad (ask e f)
  unfolding ask
  Avoids-ask e f = record { at = λ h r e. cc }

  pub Avoids-call : (f : List E → A × List E) → Avoids Bad (call f)
  unfolding call
  Avoids-call f = record { at = λ h r e. cc }

  pub Avoids-give_back : (r : R) → ¬ Bad r → Avoids {E = E} {A = A} Bad (give_back r)
  unfolding give_back
  Avoids-give_back r good = record { at = λ h q e bad. good (subst Bad (cc) bad) }

  pub Avoids-if :
      (b : Bool) (m n : Flow E R A) → Avoids Bad m → Avoids Bad n → Avoids Bad (if b then m else n)
  Avoids-if true m n km kn = km
  Avoids-if false m n km kn = kn

module _ {ℓ κ ν} {E : Type ℓ} {R : Type κ} {Bad : R → Type ν} where
  pub Avoids-emit : (e : E) → Avoids Bad (emit e)
  unfolding emit
  Avoids-emit e = record { at = λ h r p. cc }

module _ {ℓ κ ι μ ν} {E : Type ℓ} {R : Type κ} {A : Type ι} {B : Type μ} {Bad : R → Type ν} where
  resume-Avoids :
      (s : Step R A) (f : A → Flow E R B) (h : List E) (r : R)
      → ((q : R) → s ≡ leave q → ¬ Bad q)
      → ((a : A) → Avoids Bad (f a))
      → (resume s f h).0 ≡ leave r
      → ¬ Bad r
  resume-Avoids (next a) f h r ks kf e bad = (kf a).at h r e bad
  resume-Avoids (leave q) f h r ks kf e bad = ks q refl (subst Bad (cc) bad)

  pub Avoids-bind :
      (m : Flow E R A) (f : A → Flow E R B)
      → Avoids Bad m
      → ((a : A) → Avoids Bad (f a))
      → Avoids Bad (m >>= f)
  unfolding ◌>>=◌
  Avoids-bind m f km kf = record { at = λ h r e. resume-Avoids (m h).0 f (m h).1 r (km.at h) kf e }

pub ruleset avoids_rules =
    (Avoids-pure, Avoids-ask, Avoids-call, Avoids-give_back, Avoids-if, Avoids-emit, Avoids-bind)

module _ {ℓ κ ι ν} {E : Type ℓ} {R : Type κ} {A : Type ι} {Bad : R → Type ν} where
  resume-result :
      (s : Step R A) (f : A → Flow E R R) (h : List E)
      → ((q : R) → s ≡ leave q → ¬ Bad q)
      → Bad (result (resume s f h).0)
      → (a : A) × (s ≡ next a) × (run (resume s f) h ≡ run (f a) h) × Bad (run (f a) h).0
  resume-result (next a) f h ks bad = (a, refl, refl, bad)
  resume-result (leave q) f h ks bad = absurd (ks q refl bad)

  -- A handler whose first part avoids a result, and which ends with it, went on from that part.
  pub bind-result :
      (m : Flow E R A) (f : A → Flow E R R) (h : List E)
      → Avoids Bad m
      → Bad (run (m >>= f) h).0
      → (a : A) × ((m h).0 ≡ next a)
        × (run (m >>= f) h ≡ run (f a) (m h).1)
        × Bad (run (f a) (m h).1).0
  unfolding ◌>>=◌
  bind-result m f h km bad = resume-result (m h).0 f (m h).1 (km.at h) bad

-- ===== src/Api/Retry.antt =====
-- api/router.go: HandleError, with the time between the attempts left out.
use cube_apiserver.Prelude.{
  ℕ, zero, suc, ◌≤◌, ◌<◌, Bool, true, false, Option, none, some, ◌≡◌, refl, ◌⊎◌, inl, inr, arith,
  Bool-cases, if◌then◌else◌,
}
use cube_apiserver.Base.Errors.{Err}

abbrev pub retry_counts : ℕ
retry_counts = 5

-- A handler changes the world and returns an error or nil; `conflicting` is
-- `apierrors.IsConflict(errors.Cause(err))`, false for nil.
module _ {ℓ} {S : Type ℓ} (conflicting : Err → Bool) (handler : S → Option Err × S) where
  abbrev pub is_retried : Option Err → Bool
  is_retried none = false
  is_retried (some e) = conflicting e

  -- The loop, with the rounds that are left and the error so far.
  unfoldable pub attempts : ℕ → Option Err → S → Option Err × S
  attempts zero last s = (last, s)
  attempts (suc rounds) last s =
      let rest = attempts rounds (handler s).0 (handler s).1 in
      if is_retried (handler s).0 then rest else handler s

  -- HandleError
  unfoldable pub handle_error : S → Option Err × S
  unfolding attempts
  handle_error = attempts retry_counts none

  -- The world after a number of runs of the handler.
  abbrev pub after : ℕ → S → S
  after zero s = s
  after (suc k) s = after k (handler s).1

  -- A result of at most `rounds + 1` runs of the handler: the last of them gave it, the others
  -- ended in a conflict, and so did the last one only if there was no round left.
  pub record Tried (rounds : ℕ) (s : S) (result : Option Err × S) : Type ℓ where
    pub earlier : ℕ
    pub within : earlier ≤ rounds
    pub conflicts : (j : ℕ) → j < earlier → is_retried (handler (after j s)).0 ≡ true
    pub is_last : result ≡ handler (after earlier s)
    pub ends : (earlier ≡ rounds) ⊎ (is_retried (handler (after earlier s)).0 ≡ false)

  final-Tried :
      (rounds : ℕ) (last : Option Err) (s : S)
      → is_retried (handler s).0 ≡ false
      → Tried rounds s (attempts (suc rounds) last s)
  unfolding attempts
  final-Tried rounds last s final = record {
    earlier = 0;
    within = omega arith;
    conflicts = λ j l. absurd (omega arith);
    is_last = rw final;
    ends = inr final;
  }

  conflicts_suc :
      (k : ℕ) (s : S)
      → is_retried (handler s).0 ≡ true
      → ((j : ℕ) → j < k → is_retried (handler (after j (handler s).1)).0 ≡ true)
      → (j : ℕ) → j < suc k
      → is_retried (handler (after j s)).0 ≡ true
  conflicts_suc k s first rest zero l = first
  conflicts_suc k s first rest (suc j) l = rest j (omega arith)

  attempts-Tried :
      (rounds : ℕ) (last : Option Err) (s : S) → Tried rounds s (attempts (suc rounds) last s)
  unfolding attempts
  attempts-Tried zero last s = elim (Bool-cases (is_retried (handler s).0)) [
    | inr final ↦ final-Tried zero last s final
    | inl retried ↦ record {
      earlier = 0;
      within = omega arith;
      conflicts = λ j l. absurd (omega arith);
      is_last = rw retried;
      ends = inl refl;
    }
  ]
  attempts-Tried (suc n) last s = elim (Bool-cases (is_retried (handler s).0)) [
    | inr final ↦ final-Tried (suc n) last s final
    | inl retried ↦
        let t = attempts-Tried n (handler s).0 (handler s).1 in
        record {
          earlier = suc t.earlier;
          within = omega (arith, t.within);
          conflicts = conflicts_suc t.earlier s retried t.conflicts;
          is_last = rw retried t.is_last;
          ends = elim t.ends [ inl e ↦ inl (omega arith) | inr e ↦ inr e ];
        }
  ]

-- A request runs its handler one to five times: every run but the last ended in a conflict, the
-- answer and the world are those of the last run, and a conflict is handed on only from the fifth.
pub handle_error-Tried {ℓ} :
    {S : Type ℓ} (conflicting : Err → Bool) (handler : S → Option Err × S) (s : S)
    → Tried conflicting handler 4 s (handle_error conflicting handler s)
unfolding handle_error
handle_error-Tried conflicting handler s = attempts-Tried conflicting handler 4 none s

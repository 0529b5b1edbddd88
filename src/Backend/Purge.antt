-- ===== src/Backend/Purge.antt =====
-- app/purge.go: purge. The times at which one run reads the clock count as one.
use cube_apiserver.Prelude.{ℕ, suc, List, [], ◌∷◌, ◌≡◌, refl, arith, if◌then◌else◌}
use cube_apiserver.Base.Errors.{Result, ok, err, is_not_found, value_or}
use cube_apiserver.Types.Auth.{Token}
use cube_apiserver.Util.Clock.{Clock, is_expired}
use cube_apiserver.Backend.Calls.{Event, list_tokens, delete_token, Env}

-- A token that is gone already counts.
abbrev pub counted : Result (Unit {0}) → ℕ → ℕ
counted (ok u) n = suc n
counted (err e) n = if is_not_found e then suc n else n

module _ (env : Env) (clock : Clock) where
  -- The loop over the tokens, with the count of those that were purged.
  purge_loop : List Token → ℕ → List Event → ℕ × List Event
  purge_loop [] n h = (n, h)
  purge_loop (t ∷ tokens) n h =
      let gone = delete_token t.namespace t.name ∷ h in
      let purged = purge_loop tokens (counted (env.token_deleted gone) n) gone in
      let kept = purge_loop tokens n h in if is_expired clock t then purged else kept

  -- purge: without a list there is nothing to go through.
  unfoldable pub purge : List Event → ℕ × List Event
  unfolding purge_loop
  purge h = purge_loop (value_or [] (env.tokens_listed (list_tokens ∷ h))) 0 (list_tokens ∷ h)

-- The expired ones of the tokens, in order.
abbrev pub expired_tokens : Clock → List Token → List Token
expired_tokens clock [] = []
expired_tokens clock (t ∷ tokens) =
    if is_expired clock t then t ∷ expired_tokens clock tokens else expired_tokens clock tokens

-- A call to delete each token, in order, after a history.
abbrev pub deleting : List Token → List Event → List Event
deleting [] h = h
deleting (t ∷ tokens) h = deleting tokens (delete_token t.namespace t.name ∷ h)

purge_loop-deleting :
    (env : Env) (clock : Clock) (tokens : List Token) (n : ℕ) (h : List Event)
    → (purge_loop env clock tokens n h).1 ≡ deleting (expired_tokens clock tokens) h
unfolding purge_loop
purge_loop-deleting env clock [] n h = refl
purge_loop-deleting env clock (t ∷ tokens) n h =
    let gone = delete_token t.namespace t.name ∷ h in
    ground (
      arith,
      purge_loop-deleting env clock tokens (counted (env.token_deleted gone) n) gone,
      purge_loop-deleting env clock tokens n h,
    )

-- One run of the purge lists the tokens once and asks the API to delete exactly the expired ones,
-- each once and in their order, whatever the API answers to the deletions before.
pub purge-deleting :
    (env : Env) (clock : Clock) (tokens : List Token) (h : List Event)
    → env.tokens_listed (list_tokens ∷ h) ≡ ok tokens
    → (purge env clock h).1 ≡ deleting (expired_tokens clock tokens) (list_tokens ∷ h)
unfolding purge
purge-deleting env clock tokens h listed =
    rw listed (purge_loop-deleting env clock tokens 0 (list_tokens ∷ h))

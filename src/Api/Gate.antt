-- ===== src/Api/Gate.antt =====
-- api/router.go: TokenObtainMiddleware.
use cube_apiserver.Prelude.{
  ℕ, Str, str, List, [], ◌++◌, ◌≡◌, refl, sym, ap, inl, inr, Bool-cases, arith, ◌==◌, nat_eq,
  if◌then◌else◌,
}
use cube_apiserver.Types.Auth.{Token}
use cube_apiserver.Util.{split_token_parts}
use cube_apiserver.Util.Clock.{Clock}
use cube_apiserver.Util.Request.{Request, Texts, get_token_auth_from_request}
use cube_apiserver.Backend.Calls.{Event, Env}
use cube_apiserver.Backend.Tokens.{Stored, found, rejected, get_stored_token}
use cube_apiserver.Backend.Tokens.Lookup.{Accepts, get_stored_token-Accepts}

-- What becomes of a request: it goes on with two headers set, it is answered with a status and an
-- error, or the middleware dereferences nil.
pub data Gate : Type 0 where
  passed : Str → Str → Gate
  refused : ℕ → Str → Gate
  broken : Gate

abbrev pub bearer : Str
bearer = str "Bearer "

unfoldable pub admit : Stored → Gate
admit (found t) = passed (bearer ++ t.token) t.user_id
admit (rejected status message) = if nat_eq status 0 then broken else refused status message

module _ (env : Env) (clock : Clock) (texts : Texts) where
  -- TokenObtainMiddleware
  unfoldable pub token_obtain : Request → List Event → Gate × List Event
  unfolding admit
  token_obtain req h =
      let value = get_token_auth_from_request texts req in
      let stored = get_stored_token env clock value h in
      if value == []
      then (refused 404 (str "RancherCUBE: couldn't get token auth form request"), h)
      else (admit stored.0, stored.1)

abbrev authorization_of : Gate → Str
authorization_of (passed authorization user) = authorization
authorization_of _ = []

abbrev user_of : Gate → Str
user_of (passed authorization user) = user
user_of _ = []

admit-found :
    (s : Stored) (authorization user : Str)
    → admit s ≡ passed authorization user
    → (t : Token) × (s ≡ found t) × (authorization ≡ bearer ++ t.token) × (user ≡ t.user_id)
unfolding admit
admit-found (found t) authorization user e =
    (t, refl, ap authorization_of (sym e), ap user_of (sym e))
admit-found (rejected status message) authorization user e = absurd (ground arith)

-- A request that is let through acts as the user of a token that it named by name and key, and
-- that has not expired: whatever headers it came with, it goes on with those of that token.
pub token_obtain-Accepts :
    (env : Env) (clock : Clock) (texts : Texts) (req : Request) (h : List Event)
    (authorization user : Str)
    → (token_obtain env clock texts req h).0 ≡ passed authorization user
    → (t : Token) × Accepts clock
        (split_token_parts (get_token_auth_from_request texts req)).0
        (split_token_parts (get_token_auth_from_request texts req)).1
        t
      × (authorization ≡ bearer ++ t.token)
      × (user ≡ t.user_id)
unfolding token_obtain
token_obtain-Accepts env clock texts req h authorization user e =
    elim (Bool-cases (get_token_auth_from_request texts req == [])) [
      | inl empty ↦ absurd (ground arith)
      | inr given ↦
          let value = get_token_auth_from_request texts req in
          let (t, s, a, u) =
            admit-found (get_stored_token env clock value h).0 authorization user (ground arith) in
          (t, get_stored_token-Accepts env clock value h t s, a, u)
    ]

-- ===== src/Api/Examples.antt =====
-- The theorems on requests at one session, and a handler that ends in a conflict twice.
use cube_apiserver.Prelude.{
  ℕ, ◌+◌, ◌∷◌, ◌++◌, str, ap, Option, some, none, true, ◌≡◌, refl, ◌==◌, List, [], ltb,
  if◌then◌else◌,
}
use cube_apiserver.Base.Errors.{Err, conflict, is_conflict, ok}
use cube_apiserver.Base.Text.{split}
use cube_apiserver.Base.Int.{wrap64, scale}
use cube_apiserver.Types.Auth.{Token}
use cube_apiserver.Util.{split_token_parts}
use cube_apiserver.Util.Clock.{is_expired, ttl_duration}
use cube_apiserver.Util.Request.{Texts, get_token_auth_from_request}
use cube_apiserver.Util.Examples.{five_seconds}
use cube_apiserver.Backend.Calls.{Event, tokens_by_key, delete_token}
use cube_apiserver.Backend.Tokens.Lookup.{Accepts}
use cube_apiserver.Backend.Examples.Cluster.{session, ann_env}
use cube_apiserver.Api.Retry.{handle_error, Tried, handle_error-Tried}
use cube_apiserver.Api.Gate.{Gate, passed, bearer, token_obtain, token_obtain-Accepts}
use cube_apiserver.Api.Session.{set_cookie, handled, token_cookie, cleared_cookie, logout}
use cube_apiserver.Api.Session.Roundtrip.{
  IsLive, with_cookie, token_obtain-token_cookie, logout-token_cookie,
}

-- The world is the number of runs so far.
abbrev third_time : ℕ → Option Err × ℕ
third_time n = (if ltb n 2 then some conflict else none, n + 1)

handle_error-Tried_example :
    Tried is_conflict third_time 4 0 (handle_error is_conflict third_time 0)
handle_error-Tried_example = handle_error-Tried is_conflict third_time 0

third_run : handle_error is_conflict third_time 0 ≡ (none, 3)
unfolding handle_error
third_run = refl

abbrev texts : Texts
texts = record { trim_space = λ s. s; equal_fold = λ s t. s == t; decode_base64 = λ s. ok s }

session-IsLive : IsLive ann_env five_seconds session []
unfolding ◌==◌ is_expired ttl_duration scale wrap64
session-IsLive = record {
  free_name = (refl, (refl, (refl, (refl, (refl, (refl, (refl, tt)))))));
  free_key = (refl, (refl, (refl, tt)));
  has_name = refl;
  has_key = refl;
  cached = refl;
  current = refl;
}

token_obtain-token_cookie_example :
    token_obtain ann_env five_seconds texts (with_cookie (token_cookie true session)) []
    ≡ (passed (bearer ++ str "key") (str "ann"), tokens_by_key (str "key") ∷ [])
token_obtain-token_cookie_example =
    token_obtain-token_cookie ann_env five_seconds texts true session [] refl session-IsLive

logout-token_cookie_example :
    logout ann_env five_seconds texts true (with_cookie (token_cookie true session)) [] ≡ (
      handled (set_cookie (cleared_cookie true) ∷ []) none,
      delete_token (str "ns") (str "token-1") ∷ tokens_by_key (str "key") ∷ [],
    )
logout-token_cookie_example =
    logout-token_cookie ann_env five_seconds texts true session [] refl session-IsLive refl

token_obtain-Accepts_example :
    (t : Token) × Accepts five_seconds (str "token-1") (str "key") t
    × (bearer ++ str "key" ≡ bearer ++ t.token)
    × (str "ann" ≡ t.user_id)
unfolding get_token_auth_from_request split_token_parts split ◌==◌
token_obtain-Accepts_example =
    token_obtain-Accepts ann_env five_seconds texts (with_cookie (token_cookie true session)) []
      (bearer ++ str "key") (str "ann")
      (ap (λ (x : Gate × List Event). x.0)
        (token_obtain-token_cookie ann_env five_seconds texts true session [] refl session-IsLive))

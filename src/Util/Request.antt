-- ===== src/Util/Request.antt =====
-- util/util.go: GetTokenAuthFromRequest.
use cube_apiserver.Prelude.{
  ℕ, Str, str, Bool, Option, none, some, [], ◌∷◌, nat_eq, ◌==◌, if◌then◌else◌,
}
use cube_apiserver.Base.Errors.{Result, value_or}

-- What the code reads of a request: the Authorization header, and the session cookie.
pub record Request : Type 0 where
  pub authorization : Str
  pub session_cookie : Result Str

-- strings.TrimSpace, strings.EqualFold and base64.URLEncoding.DecodeString, which depend on Unicode
-- tables and an alphabet that the proofs do not need.
pub record Texts : Type 0 where
  pub trim_space : Str → Str
  pub equal_fold : Str → Str → Bool
  pub decode_base64 : Str → Result Str

abbrev before_space : ℕ → Str × Option Str → Str × Option Str
before_space c (first, rest) = (c ∷ first, rest)

-- strings.SplitN(s, " ", 2): the text before the first space, and the text after it, if any.
unfoldable pub split_space : Str → Str × Option Str
split_space [] = ([], none)
split_space (c ∷ s) =
    let r = split_space s in if nat_eq c b' ' then ([], some s) else before_space c r

module _ (x : Texts) where
  abbrev bearer_value : Option Str → Str
  bearer_value none = []
  bearer_value (some v) = x.trim_space v

  -- A value that does not decode is logged, and counts as none.
  abbrev basic_value : Option Str → Str
  basic_value none = []
  basic_value (some v) = value_or [] (x.decode_base64 (x.trim_space v))

  abbrev header_value : Str × Option Str → Str
  header_value (scheme, value) =
      if x.equal_fold scheme (str "Bearer")
      then bearer_value value
      else if x.equal_fold scheme (str "Basic")
      then basic_value value
      else []

  -- GetTokenAuthFromRequest
  unfoldable pub get_token_auth_from_request : Request → Str
  unfolding split_space
  get_token_auth_from_request req =
      let header = x.trim_space req.authorization in
      if header == [] then value_or [] req.session_cookie else header_value (split_space header)

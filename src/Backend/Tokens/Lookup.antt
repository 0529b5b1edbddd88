-- ===== src/Backend/Tokens/Lookup.antt =====
-- What GetStoredToken accepts.
use cube_apiserver.Prelude.{
  Str, false, Option, none, some, List, [], ◌∷◌, ◌++◌, ◌≡◌, arith, ◌==◌, eq_iff, eq_refl,
}
use cube_apiserver.Base.Errors.{Err, Result, ok, err}
use cube_apiserver.Base.Text.{Free}
use cube_apiserver.Types.Auth.{Token}
use cube_apiserver.Util.{split_token_parts}
use cube_apiserver.Util.Tokens.{split_token_parts-join}
use cube_apiserver.Util.Clock.{Clock, is_expired}
use cube_apiserver.Backend.Calls.{Event, tokens_by_key, get_token, Env}
use cube_apiserver.Backend.Caches.{check_token_cache}
use cube_apiserver.Backend.Tokens.{
  found, verify, verify_gotten, verify_cached, lookup_parts, get_stored_token,
}

-- A token that the lookup accepts for a name and a key.
pub record Accepts (clock : Clock) (name key : Str) (t : Token) : Type 0 where
  pub same_name : t.name ≡ name
  pub same_key : t.token ≡ key
  pub current : is_expired clock t ≡ false
  pub has_name : (name == []) ≡ false
  pub has_key : (key == []) ≡ false

module _ (env : Env) (clock : Clock) where
  verify-Accepts :
      (name key : Str) (s t : Token)
      → (name == []) ≡ false
      → (key == []) ≡ false
      → verify env clock name key s ≡ found t
      → Accepts clock name key t
  unfolding verify
  verify-Accepts name key s t hn hk e = ground (arith, eq_iff s.token key, eq_iff s.name name)

  verify_gotten-Accepts :
      (name key : Str) (r : Result Token) (t : Token)
      → (name == []) ≡ false
      → (key == []) ≡ false
      → verify_gotten env clock name key r ≡ found t
      → Accepts clock name key t
  unfolding verify_gotten
  verify_gotten-Accepts name key (ok s) t hn hk e = verify-Accepts name key s t hn hk e
  verify_gotten-Accepts name key (err x) t hn hk e = cc

  verify_cached-Accepts :
      (name key : Str) (c : (Token × Option Err) × List Event) (t : Token)
      → (name == []) ≡ false
      → (key == []) ≡ false
      → (verify_cached env clock name key c).0 ≡ found t
      → Accepts clock name key t
  unfolding verify_cached
  verify_cached-Accepts name key ((s, none), h) t hn hk e = verify-Accepts name key s t hn hk e
  verify_cached-Accepts name key ((s, some x), h) t hn hk e =
      ground
        (arith, verify_gotten-Accepts name key (env.token_gotten (get_token [] name ∷ h)) t hn hk)

  lookup_parts-Accepts :
      (p : Str × Str) (h : List Event) (t : Token)
      → (lookup_parts env clock p h).0 ≡ found t
      → Accepts clock p.0 p.1 t
  unfolding lookup_parts
  lookup_parts-Accepts (name, key) h t e =
      ground (arith, verify_cached-Accepts name key (check_token_cache env key h) t)

-- Whatever the caches and the API answer, a token that is accepted for a token value has exactly
-- the name and the key of that value, neither of them empty, and has not expired.
pub get_stored_token-Accepts :
    (env : Env) (clock : Clock) (value : Str) (h : List Event) (t : Token)
    → (get_stored_token env clock value h).0 ≡ found t
    → Accepts clock (split_token_parts value).0 (split_token_parts value).1 t
unfolding get_stored_token
get_stored_token-Accepts env clock value h t e =
    lookup_parts-Accepts env clock (split_token_parts value) h t e

-- The value `name:key` of a token that is alone in the cache under its key, and has not expired, is
-- accepted, without a call to the API.
pub get_stored_token-cached :
    (env : Env) (clock : Clock) (t : Token) (h : List Event)
    → Free b':' t.name
    → Free b':' t.token
    → (t.name == []) ≡ false
    → (t.token == []) ≡ false
    → env.tokens_found (tokens_by_key t.token ∷ h) ≡ ok (t ∷ [])
    → is_expired clock t ≡ false
    → get_stored_token env clock (t.name ++ b':' ∷ t.token) h ≡ (found t, tokens_by_key t.token ∷ h)
unfolding get_stored_token check_token_cache
get_stored_token-cached env clock t h fn fk hn hk cached current = rw (
  split_token_parts-join t.name t.token fn fk,
  hn,
  hk,
  cached,
  eq_refl t.token,
  eq_refl t.name,
  current,
)

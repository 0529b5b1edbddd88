-- ===== src/Backend/Local/Search.antt =====
-- What a search for principals finds.
use cube_apiserver.Prelude.{
  Str, str, List, [], ◌∷◌, ◌≡◌, ◌≤◌, ◌<◌, refl, inl, inr, arith, length, ltb, ◌==◌, Bool-cases,
  if◌then◌else◌,
}
use cube_apiserver.Base.Effect.{◌>>=◌}
use cube_apiserver.Base.Errors.{ok}
use cube_apiserver.Types.Auth.{User, Principal, Token}
use cube_apiserver.Util.{contains_string}
use cube_apiserver.Controller.Common.{cached_user, user_search_indexer, search_index_default_len}
use cube_apiserver.Controller.Common.Search.{
  contains-user_search_indexer, contains-user_search_indexer_outside,
}
use cube_apiserver.Backend.Calls.{Event, users_by_search, list_cached_users, Env}
use cube_apiserver.Backend.Local.{
  with_prefix, not_from_others, list_all_users, list_users_by_index, search_users,
  search_principals_dedupe,
}

-- What an index returns for a key: the objects whose index function has the key.
unfoldable pub indexed : Str → List User → List User
indexed key [] = []
indexed key (u ∷ users) =
    let rest = indexed key users in
    if contains_string (user_search_indexer (cached_user u)) key then u ∷ rest else rest

indexed-with_prefix :
    (key : Str) (users : List User)
    → 2 ≤ length key
    → length key ≤ 6
    → indexed key users ≡ with_prefix key users
unfolding indexed with_prefix
indexed-with_prefix key [] lo hi = refl
indexed-with_prefix key (u ∷ users) lo hi =
    ground (arith, contains-user_search_indexer u key lo hi, indexed-with_prefix key users lo hi)

-- An index of users by their search keys finds nothing for a key of less than two bytes.
indexed-short : (key : Str) (users : List User) → length key < 2 → indexed key users ≡ []
unfolding indexed
indexed-short key [] short = refl
indexed-short key (u ∷ users) short =
    ground
      (arith, contains-user_search_indexer_outside u key (inl short), indexed-short key users short)

search_users-with_prefix :
    (env : Env) (key : Str) (all : List User) (h : List Event)
    → 2 ≤ length key
    → env.cached_users (list_cached_users ∷ h) ≡ ok all
    → env.users_found (users_by_search key ∷ h) ≡ ok (indexed key all)
    → (search_users env key h).0 ≡ ok (with_prefix key all)
unfolding list_all_users list_users_by_index ◌>>=◌
search_users-with_prefix env key all h lo cached found =
    elim (Bool-cases (ltb search_index_default_len (length key))) [
      | inl long ↦ rw (long, cached)
      | inr short ↦ rw (short, found, indexed-with_prefix key all lo (ground arith))
    ]

-- For a cache whose index returns exactly the users with the key, a search by two bytes or more
-- gives the users of whom a name begins with the key, whether it goes through the index or the
-- whole cache, without those that another provider already has.
pub search_principals_dedupe-with_prefix :
    (env : Env) (key : Str) (token : Token) (others : List Principal) (all : List User)
    (h : List Event)
    → 2 ≤ length key
    → env.cached_users (list_cached_users ∷ h) ≡ ok all
    → env.users_found (users_by_search key ∷ h) ≡ ok (indexed key all)
    → (search_principals_dedupe env key (str "user") token others h).0
      ≡ ok (not_from_others token others (with_prefix key all))
unfolding search_principals_dedupe ◌>>=◌ ◌==◌
search_principals_dedupe-with_prefix env key token others all h lo cached found =
    rw (search_users-with_prefix env key all h lo cached found)

-- Over such an index, a search by fewer than two bytes finds nobody.
pub search_principals_dedupe-short :
    (env : Env) (key principal_type : Str) (token : Token) (others : List Principal)
    (all : List User) (h : List Event)
    → length key < 2
    → env.users_found (users_by_search key ∷ h) ≡ ok (indexed key all)
    → (search_principals_dedupe env key principal_type token others h).0 ≡ ok []
unfolding search_principals_dedupe list_users_by_index not_from_others ◌>>=◌
search_principals_dedupe-short env key principal_type token others all h short found =
    ground (arith, indexed-short key all short)

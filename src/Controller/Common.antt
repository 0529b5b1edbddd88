-- ===== src/Controller/Common.antt =====
-- controller/common.go
pub mod Principals
pub mod Search
use cube_apiserver.Prelude.{
  ℕ, zero, suc, ◌+◌, Str, str, Bool, true, false, ◌&&◌, Option, none, some, List, [], ◌∷◌, ◌++◌,
  length, take, ltb, leb, ◌==◌, if◌then◌else◌,
}
use cube_apiserver.Base.Text.{has_prefix}
use cube_apiserver.Types.Meta.{ObjectMeta, zero_meta}
use cube_apiserver.Types.Auth.{User, Principal, Token, zero_principal}

abbrev pub local_prefix : Str
local_prefix = str "local."

-- The loop of GetLocalPrincipalID: the last identifier with the prefix wins.
unfoldable pub last_local : List Str → Str → Str
last_local [] principal_id = principal_id
last_local (p ∷ ps) principal_id =
    last_local ps (if has_prefix p local_prefix then p else principal_id)

-- GetLocalPrincipalID
unfoldable pub get_local_principal_id : User → Str
unfolding last_local
get_local_principal_id user =
    let principal_id = last_local user.principal_ids [] in
    if principal_id == []
    then local_prefix ++ (user.namespace ++ (str "." ++ user.name))
    else principal_id

-- The dynamic types that the informers' caches hold.
pub data Obj : Type 0 where
  cached_user : User → Obj
  cached_principal : Principal → Obj
  cached_token : Token → Obj
  cached_binding : ObjectMeta → Obj
  cached_role : ObjectMeta → Obj

unfoldable pub user_by_principal : Obj → List Str
user_by_principal (cached_user u) = u.principal_ids
user_by_principal _ = []

unfoldable pub user_by_username : Obj → List Str
user_by_username (cached_user u) = u.username ∷ []
user_by_username _ = []

-- minOf
unfoldable pub min_of : ℕ → ℕ → ℕ
min_of len default_len = if ltb len default_len then len else default_len

-- The loop of indexField from `i` on, on as many rounds as its bound leaves.
unfoldable pub index_loop : ℕ → ℕ → Str → ℕ → List Str
index_loop zero i field max_index = []
index_loop (suc rounds) i field max_index =
    let rest = index_loop rounds (i + 1) field max_index in
    if leb i max_index then take i field ∷ rest else []

-- indexField: the prefixes of 2 to `max_index` bytes.
unfoldable pub index_field : Str → ℕ → List Str
unfolding index_loop
index_field field max_index = index_loop max_index 2 field max_index

abbrev pub search_index_default_len : ℕ
search_index_default_len = 6

abbrev pub index_default : Str → List Str
index_default field = index_field field (min_of (length field) search_index_default_len)

unfoldable pub user_search_indexer : Obj → List Str
user_search_indexer (cached_user u) =
    index_default u.username ++ (index_default u.display_name ++ index_default u.name)
user_search_indexer _ = []

unfoldable pub principal_by_id : Obj → List Str
principal_by_id (cached_principal p) = p.name ∷ []
principal_by_id _ = []

unfoldable pub token_by_name : Obj → List Str
token_by_name (cached_token t) = t.name ∷ []
token_by_name _ = []

unfoldable pub token_by_key : Obj → List Str
token_by_key (cached_token t) = t.token ∷ []
token_by_key _ = []

unfoldable pub cluster_role_binding_by_name : Obj → List Str
cluster_role_binding_by_name (cached_binding m) = m.name ∷ []
cluster_role_binding_by_name _ = []

unfoldable pub cluster_role_by_name : Obj → List Str
cluster_role_by_name (cached_role m) = m.name ∷ []
cluster_role_by_name _ = []

-- isThisUserMe
unfoldable pub is_this_user_me : Principal → Principal → Bool
is_this_user_me me other =
    me.name == other.name
    && me.login_name == other.login_name
    && me.principal_type == other.principal_type

-- isMemberOf
unfoldable pub is_member_of : List Principal → Principal → Bool
is_member_of [] other = false
is_member_of (g ∷ gs) other =
    if g.name == other.name && g.principal_type == other.principal_type
    then true
    else is_member_of gs other

-- The principal that ToPrincipal fills in before it looks at the token.
abbrev pub base_principal : Str → Str → Str → Str → Principal
base_principal display_name login_name namespace id = record zero_principal {
  metadata = record zero_meta { name = id; namespace = namespace };
  display_name = (if display_name == [] then login_name else display_name);
  login_name = login_name;
  provider = str "local";
}

abbrev as_user : Principal → Option Token → Principal
as_user princ none = princ
as_user princ (some t) = record princ { me = is_this_user_me t.user_principal princ }

abbrev as_group : Principal → Option Token → Principal
as_group princ none = princ
as_group princ (some t) = record princ { member_of = is_member_of t.group_principals princ }

-- ToPrincipal
unfoldable pub to_principal : Str → Str → Str → Str → Str → Option Token → Principal
to_principal principal_type display_name login_name namespace id token =
    let princ = base_principal display_name login_name namespace id in
    if principal_type == str "user"
    then as_user (record princ { principal_type = str "user" }) token
    else as_group (record princ { principal_type = str "group" }) token

-- matchPrincipalID
unfoldable pub match_principal_id : List Str → Str → Bool
match_principal_id [] id = false
match_principal_id (v ∷ vs) id = if v == id then true else match_principal_id vs id

-- ===== src/Controller/Common/Principals.antt =====
-- Principal identifiers of users, and the principal made of one.
use cube_apiserver.Prelude.{
  Str, str, true, false, ◌&&◌, Option, some, List, [], ◌∷◌, ◌++◌, ◌≡◌, refl, ◌⊎◌, inl, arith, ◌==◌,
  eq_refl, if◌then◌else◌,
}
use cube_apiserver.Base.Text.{has_prefix, has_prefix-append, has_prefix-rest, split-append}
use cube_apiserver.Types.Auth.{User, Token}
use cube_apiserver.Util.{get_auth_provider_name, contains_string}
use cube_apiserver.Controller.Common.{
  local_prefix, last_local, get_local_principal_id, to_principal, is_this_user_me,
  match_principal_id,
}

-- The loop returns its start value, or one of the identifiers, which then has the prefix.
last_local_cases :
    (ps : List Str) (start : Str)
    → (last_local ps start ≡ start) ⊎ (has_prefix (last_local ps start) local_prefix ≡ true)
unfolding last_local
last_local_cases [] start = inl refl
last_local_cases (p ∷ ps) start = ground (arith, last_local_cases ps p, last_local_cases ps start)

-- The identifier chosen for a user begins with "local.", also for a user who has none stored.
pub has_prefix-get_local_principal_id :
    (u : User) → has_prefix (get_local_principal_id u) local_prefix ≡ true
unfolding get_local_principal_id
has_prefix-get_local_principal_id u = ground (
  arith,
  last_local_cases u.principal_ids [],
  eq_refl [],
  has_prefix-append local_prefix (u.namespace ++ (str "." ++ u.name)),
)

-- The provider name that is split off an identifier of the local provider is "local".
pub get_auth_provider_name-local :
    (s : Str) → has_prefix s local_prefix ≡ true → get_auth_provider_name s ≡ str "local"
unfolding get_auth_provider_name
get_auth_provider_name-local s h =
    let (t, e) = has_prefix-rest s local_prefix h in
    ground (arith, split-append b'.' (str "local") t (refl, (refl, (refl, (refl, (refl, tt))))))

-- A user without a stored identifier gets one made of namespace and name.
pub get_local_principal_id_default :
    (u : User)
    → u.principal_ids ≡ []
    → get_local_principal_id u ≡ local_prefix ++ (u.namespace ++ (str "." ++ u.name))
unfolding get_local_principal_id
get_local_principal_id_default u h = ground (arith, eq_refl [])

-- Whoever asks, the principal of a user keeps its identifier, namespace and provider, and is shown
-- under a name that is empty only if the login name is.
pub to_principal_fields :
    (type display login namespace id : Str) (t : Option Token)
    → let p = to_principal type display login namespace id t in
      (p.name ≡ id)
      × (p.namespace ≡ namespace)
      × (p.login_name ≡ login)
      × (p.provider ≡ str "local")
      × (p.display_name ≡ (if display == [] then login else display))
unfolding to_principal
to_principal_fields type display login namespace id t = ground arith

-- A user's principal is `me` exactly for a token whose principal has its identifier, login name
-- and type "user"; it is never a member of a group by this.
pub to_principal-me :
    (display login namespace id : Str) (t : Token)
    → let p = to_principal (str "user") display login namespace id (some t) in
      (p.me ≡ (
        t.user_principal.name == id
        && t.user_principal.login_name == login
        && t.user_principal.principal_type == str "user"))
      × (p.member_of ≡ false)
unfolding to_principal is_this_user_me
to_principal-me display login namespace id t = ground (arith, eq_refl (str "user"))

-- matchPrincipalID and util.ContainsString are one function.
pub match_principal_id-contains :
    (ids : List Str) (id : Str) → match_principal_id ids id ≡ contains_string ids id
unfolding match_principal_id contains_string
match_principal_id-contains [] id = refl
match_principal_id-contains (v ∷ vs) id = ground (arith, match_principal_id-contains vs id)

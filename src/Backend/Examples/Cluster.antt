-- ===== src/Backend/Examples/Cluster.antt =====
-- One user and one token, in clusters that answer every call alike.
use cube_apiserver.Prelude.{◌∷◌, Str, str, Option, some, none, ◌≡◌, refl, []}
use cube_apiserver.Base.Errors.{Err, not_found, other, ok, err, Wrapping}
use cube_apiserver.Base.Int.{pos}
use cube_apiserver.Types.Meta.{zero_meta}
use cube_apiserver.Types.Auth.{User, Token, zero_user, zero_principal, zero_token}
use cube_apiserver.Backend.Calls.{namespace_scoped, Crd, Env}
use cube_apiserver.Backend.Local.Search.{indexed}
use cube_apiserver.Backend.Login.{GenericLogin, Codecs}

abbrev pub ann : User
ann = record zero_user {
  metadata = record zero_meta { name = str "ann"; namespace = str "ns" };
  username = str "ann";
  password = str "hash";
  principal_ids = str "local.ns.ann" ∷ [];
}

abbrev pub bob : User
bob = record zero_user { username = str "bob" }

abbrev pub session : Token
session = record zero_token {
  metadata = record zero_meta { name = str "token-1"; namespace = str "ns" };
  token = str "key";
  user_id = str "ann";
  auth_provider = str "local";
  ttl_millis = pos 6000;
}

abbrev pub old : Token
old = record session { ttl_millis = pos 4000 }

abbrev zero_crd : Crd
zero_crd = record {
  name = [];
  labels = [];
  group = [];
  version = [];
  scope = namespace_scoped;
  plural = [];
  kind = [];
  list_kind = [];
  singular = [];
  short_names = [];
}

-- Ann under every name and key, and her token under every key.
abbrev pub ann_env : Env
ann_env = record {
  users_found = λ h. ok (ann ∷ []);
  principals_found = λ h. ok (record zero_principal { login_name = str "ann" } ∷ []);
  tokens_found = λ h. ok (session ∷ []);
  cached_users = λ h. ok (ann ∷ bob ∷ []);
  tokens_listed = λ h. ok (session ∷ old ∷ []);
  users_listed = λ h. ok (ann ∷ bob ∷ []);
  user_gotten = λ h. err not_found;
  token_gotten = λ h. err not_found;
  user_created = λ h. err (other []);
  user_updated = λ h. ok ann;
  token_created = λ h. ok session;
  token_updated = λ h. ok session;
  token_deleted = λ h. ok tt;
  token_signed = λ h. ok (str "key");
  crd_created = λ h. ok zero_crd;
}

-- Nobody under any name.
abbrev pub empty_env : Env
empty_env = record ann_env { users_found = λ h. ok []; principals_found = λ h. ok [] }

pub wrapped : Option Err → Str → Option Err
wrapped none m = none
wrapped (some e) m = some (other m)

pub wrapped-some : (e : Err) (m : Str) → (x : Err) × (wrapped (some e) m ≡ some x)
unfolding wrapped
wrapped-some e m = (other m, refl)

pub wrapped-none : (m : Str) → wrapped none m ≡ none
unfolding wrapped
wrapped-none m = refl

abbrev pub wrapping : Wrapping
wrapping = record { wrap = wrapped; wrap_nil = wrapped-none; wrap_error = wrapped-some }

abbrev pub any_password : Str → Str → Option Err
any_password hash password = none

abbrev pub form : GenericLogin
form = record {
  ttl_millis = pos 6000;
  provider_type = str "local";
  description = [];
  response_type = str "cookie";
}

abbrev pub codecs : Codecs
codecs = record {
  parse_generic = λ s. ok form;
  parse_basic = λ s. ok (record { username = str "ann"; password = str "pw" });
  compare_hash = any_password;
  encode_base32 = λ s. s;
}

abbrev pub as_is : Str → Str
as_is s = s

-- An index of Ann and Bob.
abbrev pub search_env : Env
search_env = record ann_env { users_found = λ h. ok (indexed (str "an") (ann ∷ bob ∷ [])) }

abbrev pub short_env : Env
short_env = record ann_env { users_found = λ h. ok (indexed (str "a") (ann ∷ bob ∷ [])) }

-- A cluster with the definitions and the administrator.
abbrev pub installed_env : Env
installed_env = record ann_env { user_gotten = λ h. ok ann }

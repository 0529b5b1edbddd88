-- ===== src/Backend/Crds/Install.antt =====
-- What UserCRDDeploy has done when it succeeds.
use cube_apiserver.Prelude.{Str, str, Option, none, some, List, ◌∷◌, ◌≡◌, refl, arith}
use cube_apiserver.Base.Errors.{Err, Result}
use cube_apiserver.Backend.Calls.{Event, create_crd, Env}
use cube_apiserver.Backend.Ensure.{AdminOutcome, ended, fatal, init_cube_admin}
use cube_apiserver.Backend.Crds.{
  cube_crd, unless_exists, deploy, principal_crd_deploy, token_crd_deploy, admin_error, then_admin,
  then_tokens, then_principals, user_crd_deploy,
}

abbrev users_sent : List Event → List Event
users_sent h = create_crd (cube_crd (str "users") (str "User")) ∷ h

abbrev principals_sent : List Event → List Event
principals_sent h = create_crd (cube_crd (str "principals") (str "Principal")) ∷ users_sent h

abbrev tokens_sent : List Event → List Event
tokens_sent h = create_crd (cube_crd (str "tokens") (str "Token")) ∷ principals_sent h

-- The three definitions exist, and the administrator is looked after, without an error.
pub record Installed (env : Env) (encode_base32 : Str → Str) (hashed : Result Str)
    (h h' : List Event) : Type 0 where
  pub has_users : unless_exists (env.crd_created (users_sent h)) ≡ none
  pub has_principals : unless_exists (env.crd_created (principals_sent h)) ≡ none
  pub has_tokens : unless_exists (env.crd_created (tokens_sent h)) ≡ none
  pub has_admin : (init_cube_admin env encode_base32 hashed (tokens_sent h)).0 ≡ ended none
  pub calls : h' ≡ (init_cube_admin env encode_base32 hashed (tokens_sent h)).1

module _ (env : Env) (encode_base32 : Str → Str) (hashed : Result Str) where
  admin_error-none :
      (a : AdminOutcome) → admin_error env encode_base32 hashed a ≡ some none → a ≡ ended none
  unfolding admin_error
  admin_error-none (ended e) p = cc
  admin_error-none (fatal e) p = absurd (cc)

  module _ (h : List Event) where
    then_admin-Installed :
        (t : Option Err)
        → unless_exists (env.crd_created (users_sent h)) ≡ none
        → unless_exists (env.crd_created (principals_sent h)) ≡ none
        → unless_exists (env.crd_created (tokens_sent h)) ≡ t
        → (then_admin env encode_base32 hashed (t, tokens_sent h)).0 ≡ some none
        → Installed env encode_base32 hashed h
            (then_admin env encode_base32 hashed (t, tokens_sent h)).1
    unfolding then_admin
    then_admin-Installed none u p t e = record {
      has_users = u;
      has_principals = p;
      has_tokens = t;
      has_admin = admin_error-none _ e;
      calls = refl;
    }
    then_admin-Installed (some x) u p t e = absurd (ground arith)

    then_tokens-Installed :
        (p : Option Err)
        → unless_exists (env.crd_created (users_sent h)) ≡ none
        → unless_exists (env.crd_created (principals_sent h)) ≡ p
        → (then_tokens env encode_base32 hashed (p, principals_sent h)).0 ≡ some none
        → Installed env encode_base32 hashed h
            (then_tokens env encode_base32 hashed (p, principals_sent h)).1
    unfolding then_tokens token_crd_deploy deploy
    then_tokens-Installed none u p e = then_admin-Installed _ u p refl e
    then_tokens-Installed (some x) u p e = absurd (ground arith)

    then_principals-Installed :
        (u : Option Err)
        → unless_exists (env.crd_created (users_sent h)) ≡ u
        → (then_principals env encode_base32 hashed (u, users_sent h)).0 ≡ some none
        → Installed env encode_base32 hashed h
            (then_principals env encode_base32 hashed (u, users_sent h)).1
    unfolding then_principals principal_crd_deploy deploy
    then_principals-Installed none u e = then_tokens-Installed _ u refl e
    then_principals-Installed (some x) u e = absurd (ground arith)

-- A deployment of the user definitions that ends without an error has created the definitions of
-- users, principals and tokens, in this order, or found that they exist, and then looked after the
-- administrator without an error; it has made no other call.
pub user_crd_deploy-Installed :
    (env : Env) (encode_base32 : Str → Str) (hashed : Result Str) (h : List Event)
    → (user_crd_deploy env encode_base32 hashed h).0 ≡ some none
    → Installed env encode_base32 hashed h (user_crd_deploy env encode_base32 hashed h).1
unfolding user_crd_deploy deploy
user_crd_deploy-Installed env encode_base32 hashed h e =
    then_principals-Installed env encode_base32 hashed h _ refl e

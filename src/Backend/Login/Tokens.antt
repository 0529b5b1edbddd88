-- ===== src/Backend/Login/Tokens.antt =====
-- The tokens that CreateOrUpdateToken makes.
use cube_apiserver.Prelude.{
  zero, suc, Str, str, Bool, true, false, none, List, [], ◌∷◌, ◌≡◌, ◌≢◌, ◌⊎◌, inl, inr, ◌==◌,
  Bool-cases, refl, arith,
}
use cube_apiserver.Base.Errors.{Result, ok, err, tolerate}
use cube_apiserver.Base.Int.{ℤ, pos, negsuc, add_ℤ, wrap64, scale}
use cube_apiserver.Types.Meta.{zero_meta}
use cube_apiserver.Types.Auth.{Token, zero_token}
use cube_apiserver.Util.Clock.{Clock, is_zero, ttl_duration, set_token_expires_at}
use cube_apiserver.Backend.Calls.{Event, sign_token, create_token, update_token, Env}
use cube_apiserver.Backend.Local.{generate_token}
use cube_apiserver.Backend.Login.{
  answered, is_local, keyed, stored, expire, provided, signed, create_or_update_token,
}

-- The expiry that a lifetime of no milliseconds leaves alone: else the time of creation and the
-- lifetime in nanoseconds, as int64, in the format of the clock.
abbrev pub HasExpiry : Clock → Token → Token → Type 0
HasExpiry clock created updated =
    ((created.ttl_millis ≡ pos 0) × (updated ≡ created))
    ⊎ ((created.ttl_millis ≢ pos 0)
        × (updated ≡ record created {
          expires_at = clock.format (
              add_ℤ created.metadata.creation_timestamp
                (wrap64 (scale created.ttl_millis 1000000)));
        }))

-- A token that was made: signed with a key, created under it, and updated with the expiry that
-- follows from what the API returned.
pub record MadeFor (env : Env) (clock : Clock) (asked made : Token) (h h' : List Event)
    : Type 0 where
  pub key : Str
  pub is_signed : env.token_signed (sign_token asked.ttl_millis ∷ h) ≡ ok key
  pub sent : Token
  pub is_keyed : sent ≡ record asked {
    token = key;
    metadata = record zero_meta {
      generate_name = str "token-";
      labels = (str "auth.user.cube.rancher.io/token-user-id", asked.user_id) ∷ [];
    };
  }
  pub created : Token
  pub is_created :
      tolerate zero_token (
        env.token_created
          (create_token asked.user_principal.namespace sent ∷ sign_token asked.ttl_millis ∷ h))
      ≡ ok created
  pub updated : Token
  pub expires : HasExpiry clock created updated
  pub is_updated : env.token_updated h' ≡ ok made
  pub has_local : (asked.auth_provider == str "local") ≡ true
  pub calls :
      h'
      ≡ update_token asked.user_principal.namespace updated
        ∷ create_token asked.user_principal.namespace sent
        ∷ sign_token asked.ttl_millis
        ∷ h

is_zero-pos : (n : ℤ) → is_zero n ≡ true → n ≡ pos 0
is_zero-pos (pos zero) e = refl
is_zero-pos (pos (suc k)) e = cc
is_zero-pos (negsuc n) e = cc

ne_zero : (n : ℤ) → is_zero n ≡ false → n ≢ pos 0
ne_zero (pos zero) e p = cc
ne_zero (pos (suc k)) e p = cc
ne_zero (negsuc n) e p = cc

set_token_expires_at-HasExpiry :
    (clock : Clock) (t : Token) → HasExpiry clock t (set_token_expires_at clock t)
unfolding set_token_expires_at ttl_duration
set_token_expires_at-HasExpiry clock t = elim (Bool-cases (is_zero t.ttl_millis)) [
  | inl e ↦ inl (is_zero-pos t.ttl_millis e, rw e)
  | inr e ↦ inr (ne_zero t.ttl_millis e, rw e)
]

tolerate_twice :
    (r : Result Token) → tolerate zero_token r ≡ tolerate zero_token (tolerate zero_token r)
tolerate_twice (ok t) = refl
tolerate_twice (err x) = ground arith

module _ (env : Env) (clock : Clock) (asked made : Token) (h : List Event) where
  stored-answered : (r : Result Token) → stored env clock r ≡ answered made none → r ≡ ok made
  unfolding stored
  stored-answered (ok t) e = cc
  stored-answered (err x) e = absurd (cc)

  module _ (key : Str) (is_signed : env.token_signed (sign_token asked.ttl_millis ∷ h) ≡ ok key)
      (has_local : is_local asked.auth_provider ≡ true) where
    abbrev namespace : Str
    namespace = asked.user_principal.namespace

    abbrev sent : List Event
    sent = create_token namespace (keyed env clock key asked) ∷ sign_token asked.ttl_millis ∷ h

    expire-MadeFor :
        (r : Result Token)
        → tolerate zero_token (env.token_created sent) ≡ r
        → (expire env clock namespace (r, sent)).0 ≡ answered made none
        → MadeFor env clock asked made h (expire env clock namespace (r, sent)).1
    unfolding expire
    expire-MadeFor (err x) is_created e = absurd (cc)
    expire-MadeFor (ok t) is_created e = record {
      key = key;
      is_signed = is_signed;
      sent = keyed env clock key asked;
      is_keyed = refl;
      created = t;
      is_created = is_created;
      updated = set_token_expires_at clock t;
      expires = set_token_expires_at-HasExpiry clock t;
      is_updated = stored-answered _ e;
      has_local = has_local;
      calls = refl;
    }

  provided-MadeFor :
      (key : Str) (b : Bool)
      → env.token_signed (sign_token asked.ttl_millis ∷ h) ≡ ok key
      → is_local asked.auth_provider ≡ b
      → let made_now =
          provided env clock b (keyed env clock key asked) (sign_token asked.ttl_millis ∷ h) in
        made_now.0 ≡ answered made none → MadeFor env clock asked made h made_now.1
  unfolding provided generate_token
  provided-MadeFor key true is_signed has_local e =
      expire-MadeFor key is_signed has_local _ (tolerate_twice _) e
  provided-MadeFor key false is_signed has_local e = absurd (cc)

  signed-MadeFor :
      (r : Result Str)
      → env.token_signed (sign_token asked.ttl_millis ∷ h) ≡ r
      → (signed env clock asked r (sign_token asked.ttl_millis ∷ h)).0 ≡ answered made none
      → MadeFor env clock asked made h
          (signed env clock asked r (sign_token asked.ttl_millis ∷ h)).1
  unfolding signed
  signed-MadeFor (err x) is_signed e = absurd (cc)
  signed-MadeFor (ok key) is_signed e =
      provided-MadeFor key (is_local asked.auth_provider) is_signed refl e

-- A token that CreateOrUpdateToken answers without an error comes of exactly three calls. Its
-- lifetime was signed; the token that was asked for was created with the signature as its key, under
-- a generated name, with the label of its user and no other metadata; and what the API returned was
-- updated with its expiry: the time of creation and the lifetime, where that is not zero, and
-- unchanged otherwise. The answer is that of the update, and the provider is the local one.
pub create_or_update_token-MadeFor :
    (env : Env) (clock : Clock) (asked made : Token) (h : List Event)
    → (create_or_update_token env clock asked h).0 ≡ answered made none
    → MadeFor env clock asked made h (create_or_update_token env clock asked h).1
unfolding create_or_update_token
create_or_update_token-MadeFor env clock asked made h e =
    signed-MadeFor env clock asked made h (env.token_signed (sign_token asked.ttl_millis ∷ h)) refl
      e

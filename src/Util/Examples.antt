-- ===== src/Util/Examples.antt =====
-- A clock that compares durations exactly; the theorems on tokens and numbers at concrete inputs.
use cube_apiserver.Prelude.{
  ℕ, ◌+◌, ◌∷◌, ◌++◌, Str, str, some, true, false, ◌≡◌, refl, inr, arith, [], ◌≤◌,
}
use cube_apiserver.Base.Int.{ℤ, pos, negsuc, leb_ℤ, ◌≤ℤ◌, pos_part, neg_part}
use cube_apiserver.Types.Auth.{Token, zero_token}
use cube_apiserver.Util.{split_token_parts}
use cube_apiserver.Util.Tokens.{split_token_parts-join}
use cube_apiserver.Util.Clock.{Clock, is_expired}
use cube_apiserver.Util.Expiry.{is_expired-after, is_expired-before, is_expired-overflow}
use cube_apiserver.Util.Decimal.{int32_to_string, read_int, int32_to_string-read_int}

pub leb_ℤ_mono : (a b : ℤ) → b ≤ℤ a → leb_ℤ b a ≡ true
leb_ℤ_mono a b h = ground arith

pub leb_ℤ_apart :
    (a b : ℤ) → pos_part a + neg_part b + 1000000 ≤ pos_part b + neg_part a → leb_ℤ b a ≡ false
leb_ℤ_apart a b h = ground arith

-- Five seconds after every creation.
abbrev pub five_seconds : Clock
five_seconds = record {
  since = λ t. pos 5000000000;
  seconds_ge = λ a b. leb_ℤ b a;
  format = λ t. [];
  seconds_mono = leb_ℤ_mono;
  seconds_apart = leb_ℤ_apart;
}

abbrev living : ℕ → Token
living n = record zero_token { ttl_millis = pos n }

is_expired-after_example : is_expired five_seconds (living 5000) ≡ true
is_expired-after_example =
    is_expired-after five_seconds (living 5000) 5000 5000000000 refl (omega arith) (omega arith)
      refl (omega arith)

is_expired-before_test : is_expired five_seconds (living 5001) ≡ false
is_expired-before_test =
    is_expired-before five_seconds (living 5001) 5001 5000000000 refl (omega arith) refl
      (inr (omega arith))

is_expired-overflow_example : is_expired five_seconds (living 9223372036855) ≡ true
is_expired-overflow_example =
    is_expired-overflow five_seconds (living 9223372036855) 9223372036855 5000000000 refl
      (omega arith) (omega arith) refl

int32_to_string-read_int_example :
    (s : Str) × (int32_to_string (negsuc 2147483647) ≡ some s) × (read_int s ≡ negsuc 2147483647)
int32_to_string-read_int_example =
    int32_to_string-read_int (negsuc 2147483647) (omega arith) (omega arith)

least_int32 : int32_to_string (negsuc 2147483647) ≡ some (str "-2147483648")
unfolding int32_to_string
least_int32 = refl

split_token_parts-join_example : split_token_parts (str "a" ++ b':' ∷ str "b") ≡ (str "a", str "b")
split_token_parts-join_example = split_token_parts-join (str "a") (str "b") (refl, tt) (refl, tt)

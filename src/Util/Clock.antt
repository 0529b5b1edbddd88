-- ===== src/Util/Clock.antt =====
-- util/util.go: SetTokenExpiresAt and IsExpired. Times and durations are int64 nanoseconds.
use cube_apiserver.Prelude.{zero, suc, ◌+◌, ◌≤◌, Str, Bool, true, false, ◌≡◌, if◌then◌else◌}
use cube_apiserver.Base.Int.{ℤ, pos, negsuc, ◌≤ℤ◌, pos_part, neg_part, wrap64, scale, add_ℤ}
use cube_apiserver.Types.Auth.{Token}

-- Go's package time at the moment of the call: time.Since, the comparison of two durations by
-- their Seconds (floats), and the RFC 3339 text of a time. The conversion to seconds is monotone,
-- and tells durations apart that differ by a millisecond.
pub record Clock : Type 0 where
  pub since : ℤ → ℤ
  pub seconds_ge : ℤ → ℤ → Bool
  pub format : ℤ → Str
  pub seconds_mono : (a b : ℤ) → b ≤ℤ a → seconds_ge a b ≡ true
  pub seconds_apart :
      (a b : ℤ)
      → pos_part a + neg_part b + 1000000 ≤ pos_part b + neg_part a
      → seconds_ge a b ≡ false

abbrev pub is_zero : ℤ → Bool
is_zero (pos n) = elim n [ zero ↦ true | suc k ↦ false ]
is_zero (negsuc n) = false

-- time.Duration(ttl) * time.Millisecond
unfoldable pub ttl_duration : ℤ → ℤ
ttl_duration ttl = wrap64 (scale ttl 1000000)

-- IsExpired
unfoldable pub is_expired : Clock → Token → Bool
is_expired clock token =
    if is_zero token.ttl_millis
    then false
    else clock.seconds_ge (clock.since token.metadata.creation_timestamp)
        (ttl_duration token.ttl_millis)

-- SetTokenExpiresAt
unfoldable pub set_token_expires_at : Clock → Token → Token
set_token_expires_at clock token = if is_zero token.ttl_millis then token else record token {
  expires_at =
      clock.format (add_ℤ token.metadata.creation_timestamp (ttl_duration token.ttl_millis));
}

-- ===== src/Util/Expiry.antt =====
-- When a token expires.
use cube_apiserver.Prelude.{ℕ, ◌+◌, ◌*◌, ◌≤◌, ◌<◌, true, false, ◌≡◌, ◌⊎◌, arith}
use cube_apiserver.Base.Int.{ℤ, pos, ◌≤ℤ◌, wrap64, wrap64_id, scale}
use cube_apiserver.Types.Auth.{Token}
use cube_apiserver.Util.Clock.{Clock, ttl_duration, is_expired}

-- A lifetime below 2^63 nanoseconds is converted exactly.
ttl_duration-exact : (n : ℕ) → n ≤ 9223372036854 → ttl_duration (pos n) ≡ pos (n * 1000000)
unfolding ttl_duration scale
ttl_duration-exact n h = wrap64_id (pos (n * 1000000)) (omega arith)

-- One between 2^63 and 2^64 nanoseconds becomes negative.
ttl_duration-wraps :
    (n : ℕ) → 9223372036855 ≤ n → n ≤ 18446744073709 → ttl_duration (pos n) ≤ℤ pos 0
unfolding ttl_duration scale wrap64
ttl_duration-wraps n lo hi = ground arith

le_pos : (d : ℤ) (age : ℕ) → d ≤ℤ pos 0 → d ≤ℤ pos age
le_pos d age h = omega arith

-- A token with a lifetime of n milliseconds, up to 292 years, is expired once it is n milliseconds
-- old.
pub is_expired-after :
    (clock : Clock) (t : Token) (n age : ℕ)
    → t.ttl_millis ≡ pos n
    → 0 < n
    → n ≤ 9223372036854
    → clock.since t.metadata.creation_timestamp ≡ pos age
    → n * 1000000 ≤ age
    → is_expired clock t ≡ true
unfolding is_expired
is_expired-after clock t n age ttl positive small aged old =
    rw (ttl, aged)
      (ground (arith, ttl_duration-exact n small, clock.seconds_mono (pos age) (pos (n * 1000000))))

-- A token without a lifetime is never expired; one with a lifetime of n milliseconds, up to 292
-- years, is not expired while it is at most n - 1 milliseconds old.
pub is_expired-before :
    (clock : Clock) (t : Token) (n age : ℕ)
    → t.ttl_millis ≡ pos n
    → n ≤ 9223372036854
    → clock.since t.metadata.creation_timestamp ≡ pos age
    → (n ≡ 0) ⊎ (age + 1000000 ≤ n * 1000000)
    → is_expired clock t ≡ false
unfolding is_expired
is_expired-before clock t n age ttl small aged young =
    rw (ttl, aged)
      (ground
        (arith, ttl_duration-exact n small, clock.seconds_apart (pos age) (pos (n * 1000000))))

-- A lifetime from 9223372036855 to 18446744073709 milliseconds (292 to 584 years) overflows: the
-- token is expired from the start.
pub is_expired-overflow :
    (clock : Clock) (t : Token) (n age : ℕ)
    → t.ttl_millis ≡ pos n
    → 9223372036855 ≤ n
    → n ≤ 18446744073709
    → clock.since t.metadata.creation_timestamp ≡ pos age
    → is_expired clock t ≡ true
unfolding is_expired
is_expired-overflow clock t n age ttl lo hi aged =
    rw (ttl, aged)
      (ground (
        arith,
        clock.seconds_mono (pos age) (ttl_duration (pos n))
            (le_pos (ttl_duration (pos n)) age (ttl_duration-wraps n lo hi)),
      ))

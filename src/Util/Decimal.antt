-- ===== src/Util/Decimal.antt =====
-- util/util.go: Int32ToString.
use cube_apiserver.Prelude.{
  ℕ, zero, suc, ◌+◌, ◌-◌, ◌*◌, ◌/◌, ◌%◌, ◌^◌, ◌≤◌, ◌<◌, Str, Bool, true, false, Option, none, some,
  [], ◌∷◌, ◌≡◌, arith, ap, ◌∙◌, inl, inr, Bool-cases, nat_eq, if◌then◌else◌,
}
use native.Mathlib.Numerals.{add-one}
use native.Mathlib.Nat.{pow-suc}
use cube_apiserver.Base.Int.{ℤ, pos, negsuc, pos_part, neg_part}

-- The sign before the digits; `none` is a write in front of the buffer.
sign_at : ℕ → Bool → Str → Option Str
sign_at position false buf = some buf
sign_at zero true buf = none
sign_at (suc position) true buf = some (b'-' ∷ buf)

-- The loop, by the free places of the buffer; `buf` is what stands behind them.
digits_loop : ℕ → ℕ → Bool → Str → Option Str
unfolding sign_at
digits_loop zero i signed buf = none
digits_loop (suc position) i signed buf =
    let rest = digits_loop position (i / 10) signed ((b'0' + i % 10) ∷ buf) in
    if nat_eq (i / 10) 0 then sign_at position signed ((b'0' + i % 10) ∷ buf) else rest

-- Int32ToString; `none` is a panic.
unfoldable pub int32_to_string : ℤ → Option Str
unfolding digits_loop
int32_to_string (pos n) = digits_loop 11 n false []
int32_to_string (negsuc n) = digits_loop 11 (n + 1) true []

-- The value of a text of decimal digits that follow the number `v`.
abbrev pub decimal : ℕ → Str → ℕ
decimal v [] = v
decimal v (c ∷ s) = decimal (v * 10 + (c - b'0')) s

abbrev pub minus : ℕ → ℤ
minus zero = pos 0
minus (suc n) = negsuc n

-- The integer that a text denotes: its digits, after a minus sign where there is one.
abbrev pub read_int : Str → ℤ
read_int [] = pos 0
read_int (c ∷ s) = if nat_eq c b'-' then minus (decimal 0 s) else pos (decimal 0 (c ∷ s))

decimal-last : (i : ℕ) (buf : Str) → decimal (i / 10) ((b'0' + i % 10) ∷ buf) ≡ decimal i buf
decimal-last i buf = ap (λ (v : ℕ). decimal v buf) (omega arith)

decimal-only : (i : ℕ) (buf : Str) → i / 10 ≡ 0 → decimal 0 ((b'0' + i % 10) ∷ buf) ≡ decimal i buf
decimal-only i buf h = ap (λ (v : ℕ). decimal v buf) (omega arith)

-- One place less is enough for the number without its last digit.
shorter : (places i : ℕ) → i < 10 ^ suc places → i / 10 < 10 ^ places
shorter places i h = omega (arith, pow-suc 10 places)

-- The digits of a number fit into as many places as its power of ten says, and are read back.
digits_loop-decimal :
    (places i : ℕ) (buf : Str)
    → i < 10 ^ suc places
    → (c : ℕ) × (s : Str) × (digits_loop (suc places) i false buf ≡ some (c ∷ s))
      × (nat_eq c b'-' ≡ false)
      × (decimal 0 (c ∷ s) ≡ decimal i buf)
unfolding digits_loop
digits_loop-decimal zero i buf h =
    (b'0' + i % 10, buf, ground arith, ground arith, decimal-only i buf (omega arith))
digits_loop-decimal (suc places) i buf h = elim (Bool-cases (nat_eq (i / 10) 0)) [
  | inl last ↦ (b'0' + i % 10, buf, rw last, ground arith, decimal-only i buf (ground arith))
  | inr more ↦
      let (c, s, e, n, d) =
        digits_loop-decimal places (i / 10) ((b'0' + i % 10) ∷ buf) (shorter (suc places) i h) in
      (c, s, rw more e, n, d ∙ decimal-last i buf)
]

-- A sign takes one place more.
digits_loop-signed :
    (places i : ℕ) (buf s : Str)
    → digits_loop places i false buf ≡ some s
    → digits_loop (suc places) i true buf ≡ some (b'-' ∷ s)
unfolding digits_loop
digits_loop-signed zero i buf s e = cc
digits_loop-signed (suc places) i buf s e =
    ground (arith, digits_loop-signed places (i / 10) ((b'0' + i % 10) ∷ buf) s)

-- Every int32 is written within the buffer of 11 bytes, and the text denotes the number.
pub int32_to_string-read_int :
    (z : ℤ)
    → pos_part z < 2 ^ 31
    → neg_part z ≤ 2 ^ 31
    → (s : Str) × (int32_to_string z ≡ some s) × (read_int s ≡ z)
unfolding int32_to_string
int32_to_string-read_int (pos n) lo hi =
    let (c, s, e, digit, d) = digits_loop-decimal 10 n [] (omega arith) in (c ∷ s, e, ground arith)
int32_to_string-read_int (negsuc n) lo hi =
    let (c, s, e, digit, d) = digits_loop-decimal 9 (n + 1) [] (omega arith) in
    (b'-' ∷ c ∷ s, digits_loop-signed 10 (n + 1) [] (c ∷ s) e, ap minus d ∙ rw add-one)

-- ===== src/Base/Text.antt =====
-- strings.HasPrefix, strings.Split by one byte, and strings.Join-like concatenation.
use cube_apiserver.Prelude.{
  ℕ, Str, Bool, true, false, ◌&&◌, List, [], ◌∷◌, ◌++◌, ◌≡◌, refl, arith, nat_eq, if◌then◌else◌,
  All,
}

-- strings.HasPrefix(s, prefix)
unfoldable pub has_prefix : Str → Str → Bool
has_prefix s [] = true
has_prefix [] (p ∷ ps) = false
has_prefix (c ∷ s) (p ∷ ps) = nat_eq c p && has_prefix s ps

pub has_prefix-append : (p s : Str) → has_prefix (p ++ s) p ≡ true
unfolding has_prefix
has_prefix-append [] s = refl
has_prefix-append (c ∷ p) s = ground (arith, has_prefix-append p s)

pub has_prefix-rest : (s p : Str) → has_prefix s p ≡ true → (t : Str) × (s ≡ p ++ t)
unfolding has_prefix
has_prefix-rest s [] h = (s, refl)
has_prefix-rest [] (c ∷ p) h = cc
has_prefix-rest (d ∷ s) (c ∷ p) h =
    let (t, e) = has_prefix-rest s p (ground arith) in (t, ground arith)

-- One more byte of the field that is being read.
abbrev pub grow : ℕ → List Str → List Str
grow c [] = (c ∷ []) ∷ []
grow c (w ∷ ws) = (c ∷ w) ∷ ws

-- strings.Split(s, sep) for a separator of one byte: at least one part, the parts in order.
unfoldable pub split : ℕ → Str → List Str
split sep [] = [] ∷ []
split sep (c ∷ s) = let rest = split sep s in if nat_eq c sep then [] ∷ rest else grow c rest

-- No byte of `s` is the separator.
abbrev pub Free : ℕ → Str → Type 0
Free sep = All λ c. nat_eq c sep ≡ false

pub split-Free : (sep : ℕ) (s : Str) → Free sep s → split sep s ≡ s ∷ []
unfolding split
split-Free sep [] h = refl
split-Free sep (c ∷ s) h = ground (arith, split-Free sep s h.1)

pub split-append : (sep : ℕ) (s t : Str) → Free sep s → split sep (s ++ sep ∷ t) ≡ s ∷ split sep t
unfolding split
split-append sep [] t h = ground arith
split-append sep (c ∷ s) t h = ground (arith, split-append sep s t h.1)

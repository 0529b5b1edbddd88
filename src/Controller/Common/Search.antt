-- ===== src/Controller/Common/Search.antt =====
-- The search index of users against a search by prefix.
use cube_apiserver.Prelude.{
  ℕ, zero, suc, ◌+◌, ◌≤◌, ◌<◌, Str, true, false, ◌&&◌, ◌||◌, List, [], ◌∷◌, ◌++◌, ◌≡◌, ◌⊎◌, refl,
  arith, length, take, leb, nat_eq, ◌==◌,
}
use cube_apiserver.Base.Text.{has_prefix}
use cube_apiserver.Types.Auth.{User}
use cube_apiserver.Util.{contains_string}
use cube_apiserver.Controller.Common.{
  min_of, index_loop, index_field, index_default, user_search_indexer, cached_user,
}

-- A prefix of `i` bytes equals a key exactly if the key has that length and is a prefix.
take-eq :
    (i : ℕ) (f k : Str) → i ≤ length f → (take i f == k) ≡ (nat_eq (length k) i && has_prefix f k)
unfolding ◌==◌ has_prefix
take-eq zero f [] h = ground arith
take-eq zero f (c ∷ k) h = ground arith
take-eq (suc i) [] k h = absurd (omega arith)
take-eq (suc i) (d ∷ f) [] h = ground arith
take-eq (suc i) (d ∷ f) (c ∷ k) h = ground (arith, take-eq i f k)

contains-index_loop :
    (rounds i : ℕ) (f : Str) (m : ℕ) (k : Str)
    → m ≤ length f
    → m < i + rounds
    → contains_string (index_loop rounds i f m) k
      ≡ (leb i (length k) && leb (length k) m) && has_prefix f k
unfolding contains_string index_loop
contains-index_loop zero i f m k h r = ground arith
contains-index_loop (suc n) i f m k h r =
    ground (arith, take-eq i f k, contains-index_loop n (i + 1) f m k)

contains-append :
    (xs ys : List Str) (k : Str)
    → contains_string (xs ++ ys) k ≡ (contains_string xs k || contains_string ys k)
unfolding contains_string
contains-append [] ys k = refl
contains-append (x ∷ xs) ys k = ground (arith, contains-append xs ys k)

-- The index of one field holds a key exactly if the key is a prefix of 2 to 6 bytes.
contains-index_default :
    (f k : Str)
    → contains_string (index_default f) k
      ≡ (leb 2 (length k) && leb (length k) (min_of (length f) 6)) && has_prefix f k
unfolding index_field min_of
contains-index_default f k =
    contains-index_loop (min_of (length f) 6) 2 f (min_of (length f) 6) k (ground arith)
      (ground arith)

-- A prefix is no longer than its string.
has_prefix-length : (f k : Str) → has_prefix f k ≡ true → length k ≤ length f
unfolding has_prefix
has_prefix-length f [] h = omega arith
has_prefix-length [] (c ∷ k) h = cc
has_prefix-length (d ∷ f) (c ∷ k) h = ground (arith, has_prefix-length f k)

contains-index_short :
    (f k : Str) → 2 ≤ length k → length k ≤ 6 → contains_string (index_default f) k ≡ has_prefix f k
unfolding min_of
contains-index_short f k lo hi = rw contains-index_default (ground (arith, has_prefix-length f k))

-- A key of 2 to 6 bytes finds a user in the search index exactly if it is a prefix of the user's
-- login name, display name or resource name.
pub contains-user_search_indexer :
    (u : User) (k : Str)
    → 2 ≤ length k
    → length k ≤ 6
    → contains_string (user_search_indexer (cached_user u)) k
      ≡ (has_prefix u.username k || (has_prefix u.display_name k || has_prefix u.name k))
unfolding user_search_indexer
contains-user_search_indexer u k lo hi = rw (
  contains-append,
  contains-append,
  contains-index_short u.username k lo hi,
  contains-index_short u.display_name k lo hi,
  contains-index_short u.name k lo hi,
)

-- A key of fewer than 2 bytes, or of more than 6, is never found in the index.
pub contains-user_search_indexer_outside :
    (u : User) (k : Str)
    → (length k < 2) ⊎ (6 < length k)
    → contains_string (user_search_indexer (cached_user u)) k ≡ false
unfolding user_search_indexer min_of
contains-user_search_indexer_outside u k out =
    rw
      (
        contains-append, contains-append, contains-index_default, contains-index_default,
        contains-index_default,
      )
      (ground arith)

-- ===== src/Infras/Service/Search.antt =====
-- The search of backend/service.go for a service ends.
use cube_apiserver.Prelude.{
  ℕ, zero, suc, ◌+◌, ◌*◌, ◌≤◌, ◌<◌, Option, none, some, ◌≡◌, subst, ap, ltb, inl, inr, arith,
  Bool-cases, Option-cases,
}
use cube_apiserver.Infras.Service.{wait_limit, pause, search_loop, kept, and_keep, sync_service}

module _ {A : Type 0} (lister : ℕ → Option A) where
  -- From a round on: the first service that the lister shows, or none, when it has shown none in so
  -- many rounds that the sleeps exceed the limit.
  pub data Found (from : ℕ) : Option A → Type 0 where
    in_round :
        {service : A} (k : ℕ)
        → from ≤ k
        → k ≤ 6000000000
        → lister k ≡ some service
        → ((i : ℕ) → from ≤ i → i < k → lister i ≡ none)
        → Found from (some service)
    nowhere : ((i : ℕ) → from ≤ i → i ≤ 6000000000 → lister i ≡ none) → Found from none

  earlier :
      (from last : ℕ)
      → lister from ≡ none
      → ((i : ℕ) → suc from ≤ i → i < last → lister i ≡ none)
      → (i : ℕ) → from ≤ i
      → i < last
      → lister i ≡ none
  earlier from last miss later i low high = elim (Bool-cases (ltb from i)) [
    | inl above ↦ later i (ground (arith, above)) high
    | inr same ↦
        let here : from ≡ i = ground (arith, same) in subst (λ (j : ℕ). lister j ≡ none) here miss
  ]

  Found-earlier : (from : ℕ) (o : Option A) → lister from ≡ none → Found (suc from) o → Found from o
  Found-earlier from o miss (in_round k low high hit missed) =
      in_round k (omega arith) high hit (earlier from k miss missed)
  Found-earlier from o miss (nowhere missed) = nowhere (λ i low high.
      earlier from 6000000001 miss (λ j l h. missed j l (omega arith)) i low (omega arith))

  -- With rounds left for all the sleeps, the loop ends so.
  search_loop-Found :
      (n round : ℕ)
      → round ≤ 6000000000
      → 6000000000 < n + round
      → (o : Option A) × (search_loop lister n round (pause * round) ≡ some o) × Found round o
  unfolding search_loop
  search_loop-Found zero round low enough = absurd (omega arith)
  search_loop-Found (suc n) round low enough = elim (Option-cases (lister round)) [
    | inr (service, hit) ↦ (
      some service,
      ground (arith, hit),
      in_round round (omega arith) low hit (λ i l h. absurd (omega arith)),
    )
    | inl miss ↦ elim (Bool-cases (ltb wait_limit (pause * round + pause))) [
      | inl over ↦ (
        none,
        ground (arith, miss, over),
        nowhere (λ i l h.
            earlier round 6000000001 miss (λ j jl jh. absurd (ground (arith, over))) i l
              (omega arith)),
      )
      | inr within ↦
          let (o, ends, found) =
            search_loop-Found n (suc round) (ground (arith, within)) (omega arith) in
          (o, ground (arith, miss, within, ends), Found-earlier round o miss found)
    ]
  ]

-- More than 6000000000 rounds suffice for the search of a service, and it ends with the first that
-- the lister shows in the rounds 0 to 6000000000, which goes into the variable; or the lister has
-- shown none in all of them, and the variable is as it was.
pub sync_service-Found :
    {A : Type 0} (lister : ℕ → Option A) (n : ℕ) (old : Option A)
    → 6000000000 < n
    → (o : Option A) × (sync_service lister n old ≡ some (kept old o)) × Found lister 0 o
unfolding sync_service
sync_service-Found lister n old enough =
    let (o, ends, found) = search_loop-Found lister n 0 (omega arith) (omega arith) in
    (o, ap (and_keep old) ends, found)

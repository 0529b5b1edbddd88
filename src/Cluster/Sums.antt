-- ===== src/Cluster/Sums.antt =====
-- What the sums over the pods of a node come to.
use cube_apiserver.Prelude.{
  Str, false, Option, none, List, [], ◌∷◌, ◌++◌, ◌==◌, ◌≡◌, refl, sym, ap, ◌∙◌, All, eq_complete,
}
use cube_apiserver.Cluster.{
  Quantities, Pod, Amounts, added, get_pod_data, put, pods_data, add_all, pod_count, aggregate,
}

module _ (quantities : Quantities) where
  open quantities use {Q}

  -- The amounts of the pods, one after the other, on top of a first value.
  abbrev pub total : (Pod Q → Option Q) → List (Pod Q) → Option Q → Option Q
  total amount [] value = value
  total amount (pod ∷ pods) value = total amount pods (added quantities (amount pod) value)

  abbrev pub Differs : Pod Q → Pod Q → Type 0
  Differs p q = (p.name == q.name) ≡ false

  -- No two of the pods have the same name.
  abbrev pub NamesApart : List (Pod Q) → Type 0
  NamesApart [] = Unit
  NamesApart (p ∷ pods) = All (Differs p) pods × NamesApart pods

  abbrev Entries : Type 0
  Entries = List (Str × Amounts quantities)

  abbrev entry : Pod Q → Str × Amounts quantities
  entry pod = (pod.name, get_pod_data quantities pod)

  abbrev pod_entries : List (Pod Q) → Entries
  pod_entries [] = []
  pod_entries (pod ∷ pods) = entry pod ∷ pod_entries pods

  -- The pods before are named apart from a pod.
  abbrev Apart : Pod Q → List (Pod Q) → Type 0
  Apart p = All λ q. Differs q p

  put-entries :
      (p : Pod Q) (before : List (Pod Q))
      → Apart p before
      → put quantities p.name (get_pod_data quantities p) (pod_entries before)
        ≡ pod_entries (before ++ p ∷ [])
  unfolding put
  put-entries p [] apart = refl
  put-entries p (q ∷ before) apart = rw (apart.0, put-entries p before apart.1)

  append_nil : (before : List (Pod Q)) → before ++ [] ≡ before
  append_nil [] = refl
  append_nil (q ∷ before) = ap (λ (ps : List (Pod Q)). q ∷ ps) (append_nil before)

  append_assoc :
      (before : List (Pod Q)) (p : Pod Q) (pods : List (Pod Q))
      → (before ++ p ∷ []) ++ pods ≡ before ++ p ∷ pods
  append_assoc [] p pods = refl
  append_assoc (q ∷ before) p pods = ap (λ (ps : List (Pod Q)). q ∷ ps) (append_assoc before p pods)

  Apart-append :
      (q p : Pod Q) (before : List (Pod Q))
      → Apart q before
      → Differs p q
      → Apart q (before ++ p ∷ [])
  Apart-append q p [] apart d = (d, tt)
  Apart-append q p (b ∷ before) apart d = (apart.0, Apart-append q p before apart.1 d)

  -- Every pod is named apart from those before it.
  abbrev AllApart : List (Pod Q) → List (Pod Q) → Type 0
  AllApart before = All λ p. Apart p before

  AllApart-append :
      (p : Pod Q) (before pods : List (Pod Q))
      → AllApart before pods
      → All (Differs p) pods
      → AllApart (before ++ p ∷ []) pods
  AllApart-append p before [] apart d = tt
  AllApart-append p before (q ∷ pods) apart d =
      (Apart-append q p before apart.0 d.0, AllApart-append p before pods apart.1 d.1)

  pods_data-entries :
      (pods before : List (Pod Q))
      → AllApart before pods
      → NamesApart pods
      → pods_data quantities pods (pod_entries before) ≡ pod_entries (before ++ pods)
  unfolding pods_data
  pods_data-entries [] before apart names =
      ap (λ (ps : List (Pod Q)). pod_entries ps) (sym (append_nil before))
  pods_data-entries (p ∷ pods) before apart names = rw (put-entries p before apart.0) (
      pods_data-entries pods (before ++ p ∷ []) (AllApart-append p before pods apart.1 names.0)
        names.1
      ∙ ap (λ (ps : List (Pod Q)). pod_entries ps) (append_assoc before p pods))

  add_all-requests :
      (pods : List (Pod Q)) (amounts : Amounts quantities) (name : Str)
      → (add_all quantities (pod_entries pods) amounts).0 name
        ≡ total (λ p. (get_pod_data quantities p).0 name) pods (amounts.0 name)
  unfolding add_all
  add_all-requests [] amounts name = refl
  add_all-requests (p ∷ pods) (r, l) name = add_all-requests pods _ name

  add_all-limits :
      (pods : List (Pod Q)) (amounts : Amounts quantities) (name : Str)
      → (add_all quantities (pod_entries pods) amounts).1 name
        ≡ total (λ p. (get_pod_data quantities p).1 name) pods (amounts.1 name)
  unfolding add_all
  add_all-limits [] amounts name = refl
  add_all-limits (p ∷ pods) (r, l) name = add_all-limits pods _ name

  AllApart-nil : (pods : List (Pod Q)) → AllApart [] pods
  AllApart-nil [] = tt
  AllApart-nil (p ∷ pods) = (tt, AllApart-nil pods)

-- Where no two pods of a node have the same name, its requests and limits of a resource are the
-- sums over the pods, and the number of pods stands under "pods" before the sum.
pub aggregate-total :
    (quantities : Quantities) (pods : List (Pod quantities.Q)) (name : Str)
    → NamesApart quantities pods
    → ((aggregate quantities pods).0 name
        ≡ total quantities
            (λ p. (get_pod_data quantities p).0 name)
            pods
            (pod_count quantities pods name))
      × ((aggregate quantities pods).1 name
          ≡ total quantities (λ p. (get_pod_data quantities p).1 name) pods none)
unfolding aggregate
aggregate-total quantities pods name apart =
    let data_path = pods_data-entries quantities pods [] (AllApart-nil quantities pods) apart in
    (
      rw data_path (add_all-requests quantities pods _ name),
      rw data_path (add_all-limits quantities pods _ name),
    )

-- Of two pods on a node with the same name, which two namespaces may have, only the second counts
-- for the requests and limits, though both are counted under "pods".
pub aggregate-same_name :
    (quantities : Quantities) (p q : Pod quantities.Q) (name : Str)
    → p.name ≡ q.name
    → ((aggregate quantities (p ∷ q ∷ [])).0 name
        ≡ total quantities
            (λ x. (get_pod_data quantities x).0 name)
            (q ∷ [])
            (pod_count quantities (p ∷ q ∷ []) name))
      × ((aggregate quantities (p ∷ q ∷ [])).1 name
          ≡ total quantities (λ x. (get_pod_data quantities x).1 name) (q ∷ []) none)
unfolding aggregate pods_data put add_all
aggregate-same_name quantities p q name same =
    let same_name = eq_complete p.name q.name same in (rw same_name, rw same_name)

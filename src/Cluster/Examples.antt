-- ===== src/Cluster/Examples.antt =====
-- Quantities that are numbers, and two pods on a node.
use cube_apiserver.Prelude.{
  ℕ, ◌+◌, Str, str, false, none, some, [], ◌∷◌, ◌==◌, ◌≡◌, refl, ltb, if◌then◌else◌,
}
use cube_apiserver.Cluster.{
  Quantities, Pod, Container, empty_list, added, raised, add_containers, add_init_containers,
  get_pod_data, aggregate,
}
use cube_apiserver.Cluster.Sums.{aggregate-total, aggregate-same_name}

abbrev numbers : Quantities
numbers = record {
  Q = ℕ;
  zero = 0;
  add = λ a b. a + b;
  greater = λ a b. ltb b a;
  new_quantity = λ n. n;
}

abbrev cpu_of : ℕ → Container ℕ
cpu_of n = record {
  requests = λ name. if name == str "cpu" then some n else none;
  limits = empty_list;
}

-- Two containers of 2 and 3, and an initial one.
abbrev pod_of : Str → ℕ → Pod ℕ
pod_of name initial = record {
  name = name;
  namespace = str "ns";
  node_name = str "node";
  deleting = false;
  phase = str "Running";
  containers = cpu_of 2 ∷ cpu_of 3 ∷ [];
  init_containers = cpu_of initial ∷ [];
}

-- The larger of the initial container and the sum of the others.
initial_smaller : (get_pod_data numbers (pod_of (str "a") 4)).0 (str "cpu") ≡ some 5
unfolding get_pod_data added raised add_containers add_init_containers ◌==◌
initial_smaller = refl

initial_larger : (get_pod_data numbers (pod_of (str "a") 9)).0 (str "cpu") ≡ some 9
unfolding get_pod_data added raised add_containers add_init_containers ◌==◌
initial_larger = refl

aggregate-total_example :
    ((aggregate numbers (pod_of (str "a") 4 ∷ pod_of (str "b") 9 ∷ [])).0 (str "cpu") ≡ some 14)
    × ((aggregate numbers (pod_of (str "a") 4 ∷ pod_of (str "b") 9 ∷ [])).1 (str "cpu") ≡ none)
unfolding get_pod_data added raised add_containers add_init_containers ◌==◌
aggregate-total_example =
    aggregate-total numbers (pod_of (str "a") 4 ∷ pod_of (str "b") 9 ∷ []) (str "cpu")
      ((refl, tt), (tt, tt))

aggregate-same_name_test :
    ((aggregate numbers (pod_of (str "a") 4 ∷ pod_of (str "a") 9 ∷ [])).0 (str "cpu") ≡ some 9)
    × ((aggregate numbers (pod_of (str "a") 4 ∷ pod_of (str "a") 9 ∷ [])).1 (str "cpu") ≡ none)
unfolding get_pod_data added raised add_containers add_init_containers ◌==◌
aggregate-same_name_test =
    aggregate-same_name numbers (pod_of (str "a") 4) (pod_of (str "a") 9) (str "cpu") refl

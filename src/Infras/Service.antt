-- ===== src/Infras/Service.antt =====
-- backend/service.go: syncService, which ServiceGet runs, and NodeIPGet.
pub mod Search
use cube_apiserver.Prelude.{
  ℕ, zero, suc, ◌+◌, ◌*◌, ◌≤◌, ◌<◌, Str, str, Bool, true, false, Option, none, some, List, [], ◌∷◌,
  ◌≡◌, refl, ltb, ◌==◌, if◌then◌else◌, ◌⊎◌, inl, inr, arith, Bool-cases,
}
use cube_apiserver.Base.Errors.{Err, Result, ok, err, Wrapping}

-- `2*time.Minute`, in nanoseconds.
abbrev pub wait_limit : ℕ
wait_limit = 120000000000

-- `time.Sleep(20)`: 20 nanoseconds.
abbrev pub pause : ℕ
pause = 20

-- The variable `Service` keeps its value where the search ends with none.
abbrev pub kept {ℓ} : {A : Type ℓ} → Option A → Option A → Option A
kept old none = old
kept old (some service) = some service

abbrev pub and_keep {ℓ} : {A : Type ℓ} → Option A → Option (Option A) → Option (Option A)
and_keep old none = none
and_keep old (some found) = some (kept old found)

-- The answers of the lister, by the number of the round; a nil service is no answer.
module _ {A : Type 0} (lister : ℕ → Option A) where
  -- The loop, from a round on, with the time that it has slept; it ends with a service, or with
  -- none at the limit. `none` of the outer option where so many rounds do not suffice.
  unfoldable pub search_loop : ℕ → ℕ → ℕ → Option (Option A)
  search_loop zero round slept = none
  search_loop (suc rounds) round slept = elim (lister round) [
    | some service ↦ some (some service)
    | none ↦ elim (ltb wait_limit (slept + pause)) [
      | true ↦ some none
      | false ↦ search_loop rounds (suc round) (slept + pause)
    ]
  ]

  -- syncService, for at most so many rounds: the variable `Service` after it.
  unfoldable pub sync_service : ℕ → Option A → Option (Option A)
  sync_service rounds old = and_keep old (search_loop rounds 0 0)

-- A node's address, by its type and its value.
pub record NodeAddress : Type 0 where
  pub address_type : Str
  pub address : Str

-- The loop of NodeIPGet: the first external address, or else the last internal one.
unfoldable pub address_loop : Str → List NodeAddress → Str
address_loop ip [] = ip
address_loop ip (a ∷ rest) =
    let internal = address_loop a.address rest in
    let other = address_loop ip rest in
    if a.address_type == str "ExternalIP"
    then a.address
    else if a.address_type == str "InternalIP"
    then internal
    else other

-- How NodeIPGet ends; without a node, the index into the list panics.
pub data NodeIp : Type 0 where
  ip_is : Str → NodeIp
  unread : Option Err → NodeIp
  index_panic : NodeIp

-- NodeIPGet, from the answer of ClusterNodes: each node by its addresses.
unfoldable pub node_ip_get : Wrapping → Result (List (List NodeAddress)) → NodeIp
node_ip_get w (err e) = unread (w.wrap (some e) (str "RancherCUBE: fail to read nodes"))
node_ip_get w (ok []) = index_panic
node_ip_get w (ok (addresses ∷ nodes)) = ip_is (address_loop [] addresses)

-- ===== src/Controller/Users/Found.antt =====
-- Where the objects come from that a synchronisation of a user goes on with.
use cube_apiserver.Prelude.{
  str, true, false, Bool-cases, List, [], ◌∷◌, ◌++◌, ◌≡◌, refl, sym, ap, inl, inr,
}
use cube_apiserver.Base.Errors.{
  Err, not_found, already_exists, conflict, other, Result, ok, err, value_or, tolerate,
}
use cube_apiserver.Base.Effect.{Flow, next, run, ◌>>=◌}
use cube_apiserver.Types.Meta.{ObjectMeta, Owners}
use cube_apiserver.Types.Auth.{User, Principal, zero_principal}
use cube_apiserver.Types.Rbac.{Role, Binding, zero_role, zero_binding}
use cube_apiserver.Controller.Common.{match_principal_id}
use cube_apiserver.Controller.Queue.Steps.{try-next}
use cube_apiserver.Controller.Queue.{try, present, Outcome, done, failed}
use cube_apiserver.Controller.Users.Calls.{
  Event, principals_by_id, roles_by_name, bindings_by_name, create_namespace, create_principal,
  update_principal, get_role, create_role, get_binding, create_binding, Env,
}
use cube_apiserver.Controller.Users.{
  user_message_resource_exists, made_or, ensure_namespace_exists, create_in_namespace,
  create_principal_of, update_principal_of, create_missing_role, generate_cluster_role,
  create_missing_binding, generate_cluster_role_binding, check_owner, take_principal,
  find_principal, refresh_principal, take_role, find_role, take_binding, find_binding,
}
use cube_apiserver.Controller.Users.Objects.{
  user_namespace, wanted_principal, owned_principal, moved_principal, role_of, binding_of,
}

-- From the history `h` on, the object `x` was found, with the history `h'` from then on: it is the
-- only one that the index lists, or the index lists none and `x` is the answer to its creation, the
-- newest of the calls `creation`.
pub data Obtained {A : Type 0} (listed : List Event → Result (List A))
    (created : List Event → Result A) (lookup : Event) (creation : List Event) (h : List Event)
    (x : A) (h' : List Event) : Type 0 where
  found :
      value_or [] (listed (lookup ∷ h)) ≡ x ∷ []
      → h' ≡ lookup ∷ h
      → Obtained listed created lookup creation h x h'
  made :
      value_or [] (listed (lookup ∷ h)) ≡ []
      → created (creation ++ lookup ∷ h) ≡ ok x
      → h' ≡ creation ++ lookup ∷ h
      → Obtained listed created lookup creation h x h'

-- The principal that is written to the user: the one that was found, if the user names it, or the
-- answer to its update.
pub data Refreshed (owners : Owners) (env : Env) (user : User) (p : Principal) (h : List Event)
    (q : Principal) (h' : List Event) : Type 0 where
  named :
      match_principal_id user.principal_ids p.name ≡ true
      → q ≡ p
      → h' ≡ h
      → Refreshed owners env user p h q h'
  moved :
      match_principal_id user.principal_ids p.name ≡ false
      → tolerate zero_principal (
          env.principal_updated
            (update_principal user.namespace (moved_principal owners user p) ∷ h))
        ≡ ok q
      → h' ≡ update_principal user.namespace (moved_principal owners user p) ∷ h
      → Refreshed owners env user p h q h'

-- The answer to a creation that the handler goes on with.
made-present :
    {A : Type 0} (x : Err) (t : Result A) (h : List Event) (a : A)
    → ((try (made_or x t) >>= λ made. present made) h).0 ≡ next a
    → (t ≡ ok a) × (((try (made_or x t) >>= λ made. present made) h).1 ≡ h)
unfolding ◌>>=◌
made-present {A = A} x (ok b) h a e = (ap (λ (y : A). ok y) (cc), refl)
made-present x (err _) h a e = absurd (cc)

module _ (owners : Owners) (env : Env) (user : User) where
  -- A principal of the local identifier, made in the user's namespace.
  abbrev pub ObtainedPrincipal : List Event → Principal → List Event → Type 0
  ObtainedPrincipal =
      Obtained env.principals_found (λ h. tolerate zero_principal (env.principal_created h))
        (principals_by_id (wanted_principal user).name)
        (create_principal user.namespace (owned_principal owners user (wanted_principal user))
          ∷ create_namespace user_namespace
          ∷ [])

  -- A role of the user's name, made as that of an administrator.
  abbrev pub ObtainedRole : List Event → Role → List Event → Type 0
  ObtainedRole =
      Obtained env.roles_found (λ h. tolerate zero_role (env.role_created h))
        (roles_by_name user.name)
        (create_role (role_of owners (str "admin") user) ∷ get_role user.name ∷ [])

  abbrev pub ObtainedBinding : List Event → Binding → List Event → Type 0
  ObtainedBinding =
      Obtained env.bindings_found (λ h. tolerate zero_binding (env.binding_created h))
        (bindings_by_name user.name)
        (create_binding (binding_of owners user) ∷ get_binding user.name ∷ [])

  principal_made :
      (n : Result (Unit {0})) (h : List Event) (p : Principal)
      → let logic = wanted_principal user in
        let e = create_principal user.namespace (owned_principal owners user logic) in
        let m = create_in_namespace owners env user logic n >>= λ x. try x in
        (m h).0 ≡ next p
        → (tolerate zero_principal (env.principal_created (e ∷ h)) ≡ ok p) × ((m h).1 ≡ e ∷ h)
  unfolding create_in_namespace ◌>>=◌
  principal_made (ok u) h p e = let t = try-next _ p e in (ap (λ x. x.0) t, sym (ap (λ x. x.1) t))
  principal_made (err x) h p e = absurd (cc)

  take_principal-Obtained :
      (ps : List Principal) (h : List Event) (p : Principal)
      → let now = principals_by_id (wanted_principal user).name ∷ h in
        value_or [] (env.principals_found now) ≡ ps
        → (take_principal owners env user ps now).0 ≡ next p
        → ObtainedPrincipal h p (take_principal owners env user ps now).1
  unfolding take_principal create_principal_of ensure_namespace_exists ◌>>=◌
  take_principal-Obtained [] h p f e = let (c, l) = principal_made _ _ p e in made f c l
  take_principal-Obtained (q ∷ []) h p f e = found (cc) refl
  take_principal-Obtained (_ ∷ _ ∷ _) h p f e = absurd (cc)

  pub refresh_principal-Refreshed :
      (p q : Principal) (h : List Event)
      → (refresh_principal owners env user p h).0 ≡ next q
      → Refreshed owners env user p h q (refresh_principal owners env user p h).1
  unfolding refresh_principal update_principal_of ◌>>=◌
  refresh_principal-Refreshed p q h e =
      elim (Bool-cases (match_principal_id user.principal_ids p.name)) [
        | inl n ↦ let same : next p ≡ next q = rw n at e in rw n (named n (cc) refl)
        | inr n ↦
            let t = try-next _ q (rw n at e) in
            rw n (moved n (ap (λ x. x.0) t) (sym (ap (λ x. x.1) t)))
      ]

  role_made :
      (g : Result Role) (h : List Event) (r : Role)
      → ((create_missing_role owners env (str "admin") user g >>= λ x.
            (try x >>= λ made. present made))
          h).0
        ≡ next r
      → (tolerate zero_role (env.role_created (create_role (role_of owners (str "admin") user) ∷ h))
          ≡ ok r)
        × (((create_missing_role owners env (str "admin") user g >>= λ x.
                (try x >>= λ made. present made))
              h).1
            ≡ create_role (role_of owners (str "admin") user) ∷ h)
  unfolding create_missing_role ◌>>=◌
  role_made (ok x) h r e = absurd (cc)
  role_made (err not_found) h r e = made-present not_found _ _ r e
  role_made (err already_exists) h r e = absurd (cc)
  role_made (err conflict) h r e = made-present conflict _ _ r e
  role_made (err (other m)) h r e = made-present (other m) _ _ r e

  take_role-Obtained :
      (rs : List Role) (h : List Event) (r : Role)
      → let now = roles_by_name user.name ∷ h in
        value_or [] (env.roles_found now) ≡ rs
        → (take_role owners env user rs now).0 ≡ next r
        → ObtainedRole h r (take_role owners env user rs now).1
  unfolding take_role generate_cluster_role ◌>>=◌
  take_role-Obtained [] h r f e = let (c, l) = role_made _ _ r e in made f c l
  take_role-Obtained (q ∷ []) h r f e = found (cc) refl
  take_role-Obtained (_ ∷ _ ∷ _) h r f e = absurd (cc)

  binding_made :
      (g : Result Binding) (h : List Event) (r : Binding)
      → ((create_missing_binding owners env user g >>= λ x. (try x >>= λ made. present made)) h).0
        ≡ next r
      → (tolerate zero_binding (env.binding_created (create_binding (binding_of owners user) ∷ h))
          ≡ ok r)
        × (((create_missing_binding owners env user g >>= λ x. (try x >>= λ made. present made))
              h).1
            ≡ create_binding (binding_of owners user) ∷ h)
  unfolding create_missing_binding ◌>>=◌
  binding_made (ok x) h r e = absurd (cc)
  binding_made (err not_found) h r e = made-present not_found _ _ r e
  binding_made (err already_exists) h r e = absurd (cc)
  binding_made (err conflict) h r e = made-present conflict _ _ r e
  binding_made (err (other m)) h r e = made-present (other m) _ _ r e

  take_binding-Obtained :
      (bs : List Binding) (h : List Event) (b : Binding)
      → let now = bindings_by_name user.name ∷ h in
        value_or [] (env.bindings_found now) ≡ bs
        → (take_binding owners env user bs now).0 ≡ next b
        → ObtainedBinding h b (take_binding owners env user bs now).1
  unfolding take_binding generate_cluster_role_binding ◌>>=◌
  take_binding-Obtained [] h b f e = let (c, l) = binding_made _ _ b e in made f c l
  take_binding-Obtained (q ∷ []) h b f e = found (cc) refl
  take_binding-Obtained (_ ∷ _ ∷ _) h b f e = absurd (cc)

  pub find_principal-Obtained :
      (h : List Event) (p : Principal)
      → (find_principal owners env user h).0 ≡ next p
      → ObtainedPrincipal h p (find_principal owners env user h).1
  unfolding find_principal ◌>>=◌
  find_principal-Obtained h p e = take_principal-Obtained _ h p refl e

  pub find_role-Obtained :
      (h : List Event) (r : Role)
      → (find_role owners env user h).0 ≡ next r
      → ObtainedRole h r (find_role owners env user h).1
  unfolding find_role ◌>>=◌
  find_role-Obtained h r e = take_role-Obtained _ h r refl e

  pub find_binding-Obtained :
      (h : List Event) (b : Binding)
      → (find_binding owners env user h).0 ≡ next b
      → ObtainedBinding h b (find_binding owners env user h).1
  unfolding find_binding ◌>>=◌
  find_binding-Obtained h b e = take_binding-Obtained _ h b refl e

  -- Where the handler goes on after the test of an object, the user is its controller.
  pub owner_checked :
      (m : ObjectMeta) (f : Unit {0} → Flow Event Outcome Outcome) (h : List Event)
      → (run (check_owner owners user m >>= f) h).0 ≡ done
      → (owners.is_controlled_by m user.metadata ≡ true)
        × (run (check_owner owners user m >>= f) h ≡ run (f tt) h)
  unfolding check_owner ◌>>=◌
  owner_checked m f h e = elim (Bool-cases (owners.is_controlled_by m user.metadata)) [
    | inl owned ↦ (owned, rw owned)
    | inr foreign ↦
        let ended : failed (other user_message_resource_exists) ≡ done = rw foreign at e in
        absurd (cc)
  ]

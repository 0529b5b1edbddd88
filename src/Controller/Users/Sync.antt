-- ===== src/Controller/Users/Sync.antt =====
-- What a synchronisation that succeeds has checked and written.
use cube_apiserver.Prelude.{Str, true, List, [], ◌∷◌, ◌++◌, ◌≡◌, arith, eq_refl, refl, sym, ap, ◌∙◌}
use cube_apiserver.Base.Errors.{Result, ok, err}
use cube_apiserver.Base.Effect.{pure, emit, run, ◌>>=◌, ◌>>◌}
use cube_apiserver.Base.Trace.{Avoids, bind-result}
use cube_apiserver.Types.Meta.{Owners}
use cube_apiserver.Types.Auth.{User, Principal}
use cube_apiserver.Controller.Queue.Steps.{IsDone, early_rules}
use cube_apiserver.Controller.Queue.{try, Outcome, done}
use cube_apiserver.Types.Rbac.{Role, Binding}
use cube_apiserver.Controller.Users.Calls.{Event, update_user, note_synced, Env}
use cube_apiserver.Controller.Users.{
  ensure_namespace_exists, create_in_namespace, create_principal_of, update_principal_of,
  create_missing_role, generate_cluster_role, create_missing_binding, generate_cluster_role_binding,
  take_principal, find_principal, refresh_principal, take_role, find_role, take_binding,
  find_binding, finish, sync_user,
}
use cube_apiserver.Controller.Users.Found.{
  ObtainedPrincipal, ObtainedRole, ObtainedBinding, Refreshed, find_principal-Obtained,
  find_role-Obtained, find_binding-Obtained, refresh_principal-Refreshed, owner_checked,
}
use cube_apiserver.Controller.Users.Objects.{holds_id, updated_user}

holds_id-last : (ids : List Str) (name : Str) → holds_id (ids ++ name ∷ []) name ≡ true
unfolding holds_id
holds_id-last [] name = ground (arith, eq_refl name)
holds_id-last (id ∷ ids) name = ground (arith, holds_id-last ids name)

-- The user that is sent names the principal.
holds_id-updated_user :
    (user : User) (name : Str) → holds_id (updated_user user name).principal_ids name ≡ true
unfolding updated_user
holds_id-updated_user user name = ground (arith, holds_id-last user.principal_ids name)

fst_path : {a b : Outcome × List Event} → a ≡ b → a.0 ≡ b.0
fst_path e = ap (λ (x : Outcome × List Event). x.0) e

snd_path : {a b : Outcome × List Event} → a ≡ b → a.1 ≡ b.1
snd_path e = ap (λ (x : Outcome × List Event). x.1) e

module _ (owners : Owners) (env : Env) (user : User) where
  create_in_namespace-Avoids :
      (p : Principal) (r : Result (Unit {0}))
      → Avoids IsDone (create_in_namespace owners env user p r)
  unfolding create_in_namespace
  create_in_namespace-Avoids p (ok u) = search early_rules
  create_in_namespace-Avoids p (err e) = search early_rules

  create_missing_role-Avoids :
      (role : Str) (r : Result Role) → Avoids IsDone (create_missing_role owners env role user r)
  unfolding create_missing_role
  create_missing_role-Avoids role (ok r) = search early_rules
  create_missing_role-Avoids role (err e) = search early_rules

  create_missing_binding-Avoids :
      (r : Result Binding) → Avoids IsDone (create_missing_binding owners env user r)
  unfolding create_missing_binding
  create_missing_binding-Avoids (ok r) = search early_rules
  create_missing_binding-Avoids (err e) = search early_rules

  ruleset make_rules = (
    early_rules, create_in_namespace-Avoids, create_missing_role-Avoids,
    create_missing_binding-Avoids,
  )

  take_principal-Avoids : (ps : List Principal) → Avoids IsDone (take_principal owners env user ps)
  unfolding take_principal create_principal_of ensure_namespace_exists
  take_principal-Avoids [] = search make_rules depth 8
  take_principal-Avoids (p ∷ []) = search early_rules
  take_principal-Avoids (_ ∷ _ ∷ _) = search early_rules

  take_role-Avoids : (rs : List Role) → Avoids IsDone (take_role owners env user rs)
  unfolding take_role generate_cluster_role
  take_role-Avoids [] = search make_rules depth 8
  take_role-Avoids (r ∷ []) = search early_rules
  take_role-Avoids (_ ∷ _ ∷ _) = search early_rules

  take_binding-Avoids : (bs : List Binding) → Avoids IsDone (take_binding owners env user bs)
  unfolding take_binding generate_cluster_role_binding
  take_binding-Avoids [] = search make_rules depth 8
  take_binding-Avoids (b ∷ []) = search early_rules
  take_binding-Avoids (_ ∷ _ ∷ _) = search early_rules

  find_principal-Avoids : Avoids IsDone (find_principal owners env user)
  unfolding find_principal
  find_principal-Avoids = search (early_rules, take_principal-Avoids)

  refresh_principal-Avoids : (p : Principal) → Avoids IsDone (refresh_principal owners env user p)
  unfolding refresh_principal update_principal_of
  refresh_principal-Avoids p = search early_rules depth 8

  find_role-Avoids : Avoids IsDone (find_role owners env user)
  unfolding find_role
  find_role-Avoids = search (early_rules, take_role-Avoids)

  find_binding-Avoids : Avoids IsDone (find_binding owners env user)
  unfolding find_binding
  find_binding-Avoids = search (early_rules, take_binding-Avoids)

  noted :
      (r : Result User) (h : List Event)
      → let m = (do sent ← try r; emit (note_synced user.name); pure done) in
        (run m h).0 ≡ done → ((u : User) × (r ≡ ok u)) × ((run m h).1 ≡ note_synced user.name ∷ h)
  unfolding ◌>>=◌
  noted (ok u) h e = ((u, refl), refl)
  noted (err x) h e = absurd (cc)

  finish-done :
      (p : Principal) (h : List Event)
      → let sent = update_user user.namespace (updated_user user p.name) ∷ h in
        (run (finish owners env user p) h).0 ≡ done
        → ((u : User) × (env.user_updated sent ≡ ok u))
          × ((run (finish owners env user p) h).1 ≡ note_synced user.name ∷ sent)
  unfolding finish ◌>>=◌
  finish-done p h e =
      noted (env.user_updated (update_user user.namespace (updated_user user p.name) ∷ h)) _ e

-- What holds of a synchronisation from the history `h` on that ends with the history `after`.
pub record IsSynced (owners : Owners) (env : Env) (user : User) (h after : List Event)
    : Type 0 where
  pub principal : Principal
  pub written : Principal
  pub role : Role
  pub binding : Binding
  pub sent : User
  pub h1 : List Event
  pub h2 : List Event
  pub h3 : List Event
  pub h4 : List Event
  pub found_principal : ObtainedPrincipal owners env user h principal h1
  pub owns_principal : owners.is_controlled_by principal.metadata user.metadata ≡ true
  pub refreshed : Refreshed owners env user principal h1 written h2
  pub found_role : ObtainedRole owners env user h2 role h3
  pub owns_role : owners.is_controlled_by role.metadata user.metadata ≡ true
  pub found_binding : ObtainedBinding owners env user h3 binding h4
  pub owns_binding : owners.is_controlled_by binding.metadata user.metadata ≡ true
  pub accepted :
      env.user_updated (update_user user.namespace (updated_user user written.name) ∷ h4) ≡ ok sent
  pub named : holds_id (updated_user user written.name).principal_ids written.name ≡ true
  pub calls :
      after
      ≡ note_synced user.name ∷ update_user user.namespace (updated_user user written.name) ∷ h4

-- A synchronisation that succeeds has a principal, a role and a binding, each the only one that the
-- index lists or, where it lists none, the answer to its creation, and the user controls all three.
-- Beside their look-ups and creations, and the update of a principal that the user does not name, it
-- makes only its two last calls: the update of the user, who then names the principal, which the API
-- accepts, and the event of the success.
pub sync_user-IsSynced :
    (owners : Owners) (env : Env) (user : User) (h : List Event)
    → (run (sync_user owners env user) h).0 ≡ done
    → IsSynced owners env user h (run (sync_user owners env user) h).1
unfolding sync_user
sync_user-IsSynced owners env user h d =
    let (p, f1, r1, d1) = bind-result _ _ h (find_principal-Avoids owners env user) d in
    let (c1, r2) = owner_checked owners env user p.metadata _ _ d1 in
    let (q, f2, r3, d2) =
      bind-result _ _ _ (refresh_principal-Avoids owners env user p) (fst_path (sym r2) ∙ d1) in
    let (role, f3, r4, d3) = bind-result _ _ _ (find_role-Avoids owners env user) d2 in
    let (c2, r5) = owner_checked owners env user role.metadata _ _ d3 in
    let (b, f4, r6, d4) =
      bind-result _ _ _ (find_binding-Avoids owners env user) (fst_path (sym r5) ∙ d3) in
    let (c3, r7) = owner_checked owners env user b.metadata _ _ d4 in
    let ((sent, accepted), ending) = finish-done owners env user q _ (fst_path (sym r7) ∙ d4) in
    record {
      principal = p;
      written = q;
      role = role;
      binding = b;
      sent = sent;
      h1 = _;
      h2 = _;
      h3 = _;
      h4 = _;
      found_principal = find_principal-Obtained owners env user h p f1;
      owns_principal = c1;
      refreshed = refresh_principal-Refreshed owners env user p q _ f2;
      found_role = find_role-Obtained owners env user _ role f3;
      owns_role = c2;
      found_binding = find_binding-Obtained owners env user _ b f4;
      owns_binding = c3;
      accepted = accepted;
      named = holds_id-updated_user user q.name;
      calls = snd_path (r1 ∙ r2 ∙ r3 ∙ r4 ∙ r5 ∙ r6 ∙ r7) ∙ ending;
    }

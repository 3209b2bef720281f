-- ===== src/Api/Projects/Created.antt =====
-- Who sees a project that was just created.
mod Tests
use deploy_hub.Prelude.{
  String, ◌==◌, eq_refl, ◌≡◌, refl, sym, ap, subst, ◌∙◌, inl, inr, ◌≢◌, true, false, Bool,
  if◌then◌else◌, ◌&&◌, Option, none, some, List, [], ◌∷◌, arith, select,
}
use deploy_hub.Action.{Exn, Result, ok, raised, Outcome}
use deploy_hub.Schema.{provisioning, Project}
use deploy_hub.Api.World.{World, role_in, settle}
use deploy_hub.Api.Access.{User, is_admin, verify_project_access, live_project, no_access}
use deploy_hub.Api.Access.Laws.{verify_project_access_live, verify_project_access_closed}
use deploy_hub.Api.RepoUrl.{before_newline}
use deploy_hub.Api.Projects.Namespace.{is_namespace, is_as_described, is_namespace-described}
use deploy_hub.Api.Projects.{
  CreateProjectRequest, Answers, new_project, first_member, create_project, list_projects,
  is_listed,
}

-- The namespace has the form that the API's message describes, but that a newline may stand at its
-- end. The project waits for the controller and belongs to its creator, who can open it and finds it at the
-- head of the list; of the others, only administrators and those that were members before can.
pub record Created (p : Project) (u : User) (w v : World) : Type 0 where
  pub named : is_as_described (before_newline p.namespace) ≡ true
  pub status : p.status ≡ provisioning
  pub owned : p.owner_id ≡ u.user_id
  pub listed : list_projects none u v ≡ ok (p ∷ select (is_listed u) w.projects)
  pub opened : verify_project_access none p.id u v ≡ (ok p, v)
  pub administered :
      (q : User) → is_admin q ≡ true → verify_project_access none p.id q v ≡ (ok p, v)
  pub closed :
      (q : User)
      → is_admin q ≡ false
      → (u.user_id == q.user_id) ≡ false
      → role_in p.id q.user_id w.members ≡ none
      → verify_project_access none p.id q v ≡ (raised no_access, v)

-- The state after the rows were inserted.
IsCreated : CreateProjectRequest → User → Answers → World → World → Type 0
IsCreated body u a w v =
    (v.projects ≡ new_project body u a ∷ w.projects) × (v.members ≡ first_member u a ∷ w.members)

create_project-Rows :
    (body : CreateProjectRequest) (u : User) (a : Answers) (w : World) (p : Project)
    → (create_project body u a w).0 ≡ ok p
    → (is_namespace body.namespace ≡ true)
      × (p ≡ new_project body u a)
      × IsCreated body u a w (create_project body u a w).1
unfolding create_project IsCreated
create_project-Rows body u a w p h = ground (arith, h)

rows-Created :
    (body : CreateProjectRequest) (u : User) (a : Answers) (w v : World)
    → is_namespace body.namespace ≡ true
    → IsCreated body u a w v
    → Created (new_project body u a) u w v
unfolding IsCreated list_projects live_project role_in
rows-Created body u a w v n (hp, hm) = record {
  named = sym (is_namespace-described body.namespace) ∙ n;
  status = refl;
  owned = refl;
  listed = rw hp (ground (arith, eq_refl u.user_id));
  opened = (verify_project_access_live a.project_id u v (new_project body u a)).1 (
    rw hp (rw (eq_refl a.project_id) refl),
    inr (rw hm (rw (eq_refl a.project_id) (rw (eq_refl u.user_id) (λ e. cc)))),
  );
  administered = λ q b.
      (verify_project_access_live a.project_id q v (new_project body u a)).1
        (rw hp (rw (eq_refl a.project_id) refl), inl b);
  closed = λ q b d r.
      verify_project_access_closed a.project_id q v b (rw hm (rw (eq_refl a.project_id) (rw d r)));
}

-- A project that was created has a namespace of 3 to 63 lowercase letters, digits and hyphens that
-- neither starts nor ends with a hyphen, but for a newline that may stand at its end. It waits for the controller and belongs to its creator, who can open it and
-- finds it before the others in the list; an administrator can open it too, but no other user that
-- was not a member before.
pub create_project-Created :
    (body : CreateProjectRequest) (u : User) (a : Answers) (w : World) (p : Project)
    → (create_project body u a w).0 ≡ ok p
    → Created p u w (create_project body u a w).1
create_project-Created body u a w p h =
    let (n, e, r) = create_project-Rows body u a w p h in
    subst (λ q. Created q u w (create_project body u a w).1) (sym e) (rows-Created body u a w _ n r)

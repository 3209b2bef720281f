-- ===== src/Api/Members/Owners.antt =====
-- Owners stay, and nobody else decides over the members and the end of a project.
use deploy_hub.Prelude.{
  ℕ, String, ◌==◌, eq_iff, ◌≡◌, ◌≢◌, refl, sym, ap, ◌∙◌, inl, inr, true, false, Option, none, some,
  List, [], ◌∷◌, arith, Bool-cases, ◌&&◌, if◌then◌else◌,
}
use deploy_hub.Action.{Outcome, ok}
use deploy_hub.Schema.{Project, update_project}
use deploy_hub.Api.World.{
  World, Member, MemberRole, owner, editor, viewer, role_in, log_audit_event,
}
use deploy_hub.Api.Access.{User, live_project}
use deploy_hub.Api.Members.{
  may_manage, require_owner, delete_member, remove_role, remove_project_member, mark_deleted,
  require_owner_of, delete_project,
}

other_member :
    (k t j u : String) (m : Member)
    → ((k == j) && (t == u)) ≡ false
    → (m.project_id == k && m.user_id == t) ≡ true
    → (m.project_id == j && m.user_id == u) ≡ false
other_member k t j u m h e = ground (arith, h, e, eq_iff m.project_id k, eq_iff m.user_id t)

-- The rows of other members are kept.
role_in-delete :
    (k t j u : String) (ms : List Member)
    → ((k == j) && (t == u)) ≡ false
    → role_in j u (delete_member k t ms) ≡ role_in j u ms
unfolding role_in delete_member
role_in-delete k t j u [] h = refl
role_in-delete k t j u (m ∷ ms) h = elim (Bool-cases (m.project_id == k && m.user_id == t)) [
  | inl e ↦ rw e (role_in-delete k t j u ms h ∙ sym (rw (other_member k t j u m h e) refl))
  | inr e ↦ rw e (
      ap (λ r. if (m.project_id == j && m.user_id == u) then some m.role else r)
        (role_in-delete k t j u ms h))
]

-- No live row is left under the id of a deleted project.
live-mark_deleted :
    (k : String) (now : ℕ) (ps : List Project)
    → live_project k (update_project k (mark_deleted now) ps) ≡ none
unfolding live_project update_project
live-mark_deleted k now [] = refl
live-mark_deleted k now (p ∷ ps) = elim (Bool-cases (p.id == k)) [
  | inl e ↦ rw e (rw e (live-mark_deleted k now ps))
  | inr e ↦ rw e (rw e (live-mark_deleted k now ps))
]

-- If `delete_project` returns, the caller is an administrator or an owner of the project, and the
-- project is live no longer, so that `verify_project_access` gives it to nobody.
pub delete_project_revokes :
    (k : String) (u : User) (check update audit : Outcome) (now : ℕ) (w : World)
    → (delete_project k u check update audit now w).0 ≡ ok tt
    → (may_manage k u w.members ≡ true)
      × (live_project k (delete_project k u check update audit now w).1.projects ≡ none)
unfolding delete_project require_owner_of require_owner log_audit_event
delete_project_revokes k u check update audit now w h =
    ground (arith, h, live-mark_deleted k now w.projects)

same_member :
    (k t j o : String) (r : MemberRole) (ms : List Member)
    → role_in k t ms ≡ some r
    → r ≢ owner
    → role_in j o ms ≡ some owner
    → ¬ (((k == j) && (t == o)) ≡ true)
same_member k t j o r ms e ne h b = ne (ground (arith, e, h, eq_iff k j, eq_iff t o, b))

-- A member whose role is not owner is no owner.
not_target :
    (k t j o : String) (r : MemberRole) (ms : List Member)
    → role_in k t ms ≡ some r
    → r ≢ owner
    → role_in j o ms ≡ some owner
    → ((k == j) && (t == o)) ≡ false
not_target k t j o r ms e ne h = elim (Bool-cases ((k == j) && (t == o))) [
  | inr f ↦ f
  | inl b ↦ absurd (same_member k t j o r ms e ne h b)
]

remove_stage :
    (k t : String) (delete : Outcome) (w : World) (j o : String) (r : Option MemberRole)
    → role_in k t w.members ≡ r
    → role_in j o w.members ≡ some owner
    → role_in j o (remove_role k t delete r w).1.members ≡ some owner
unfolding remove_role
remove_stage k t delete w j o none e h = h
remove_stage k t delete w j o (some owner) e h = h
remove_stage k t (some x) w j o (some editor) e h = h
remove_stage k t (some x) w j o (some viewer) e h = h
remove_stage k t none w j o (some editor) e h =
    role_in-delete k t j o w.members
      (not_target k t j o editor w.members e (λ b. ground (arith, b)) h)
    ∙ h
remove_stage k t none w j o (some viewer) e h =
    role_in-delete k t j o w.members
      (not_target k t j o viewer w.members e (λ b. ground (arith, b)) h)
    ∙ h

-- Whoever asks, and whatever fails: `remove_project_member` leaves every owner of every project.
pub remove_project_member_keeps_owners :
    (k target : String) (u : User) (connect delete : Outcome) (w : World) (j o : String)
    → role_in j o w.members ≡ some owner
    → role_in j o (remove_project_member k target u connect delete w).1.members ≡ some owner
unfolding remove_project_member require_owner
remove_project_member_keeps_owners k target u connect delete w j o h =
    ground (arith, h, remove_stage k target delete w j o (role_in k target w.members) refl h)

role_in-deleted : (k t : String) (ms : List Member) → role_in k t (delete_member k t ms) ≡ none
unfolding role_in delete_member
role_in-deleted k t [] = refl
role_in-deleted k t (m ∷ ms) = elim (Bool-cases (m.project_id == k && m.user_id == t)) [
  | inl e ↦ rw e (role_in-deleted k t ms)
  | inr e ↦ rw e (rw e (role_in-deleted k t ms))
]

removed_stage :
    (k t : String) (delete : Outcome) (r : Option MemberRole) (w : World)
    → (remove_role k t delete r w).0 ≡ ok tt
    → (r ≢ none) × (role_in k t (remove_role k t delete r w).1.members ≡ none)
unfolding remove_role
removed_stage k t delete none w h = ground (arith, h)
removed_stage k t delete (some owner) w h = ground (arith, h)
removed_stage k t (some x) (some editor) w h = ground (arith, h)
removed_stage k t (some x) (some viewer) w h = ground (arith, h)
removed_stage k t none (some editor) w h = ((λ b. ground (arith, b)), role_in-deleted k t w.members)
removed_stage k t none (some viewer) w h = ((λ b. ground (arith, b)), role_in-deleted k t w.members)

-- If `remove_project_member` returns, the caller is an administrator or an owner of the project and
-- somebody else, and who was a member of the project is none any more.
remove_project_member_removes :
    (k target : String) (u : User) (connect delete : Outcome) (w : World)
    → (remove_project_member k target u connect delete w).0 ≡ ok tt
    → (may_manage k u w.members ≡ true)
      × ((target == u.user_id) ≡ false)
      × (role_in k target w.members ≢ none)
      × (role_in k target (remove_project_member k target u connect delete w).1.members ≡ none)
unfolding remove_project_member require_owner
remove_project_member_removes k target u connect delete w h =
    ground (arith, h, removed_stage k target delete (role_in k target w.members) w)

-- ===== src/Api/Audit/Visible.antt =====
-- What each reader of the audit log gets.
use deploy_hub.Prelude.{
  ℕ, String, ◌≤◌, Bool, true, false, if◌then◌else◌, Option, none, some, List, ◌≡◌, refl, sym, subst,
  ◌∙◌, ◌⊎◌, inl, inr, All, select, length, arith, Bool-cases,
}
use deploy_hub.Action.{http_exception, Outcome, ok, raised}
use deploy_hub.Schema.{Project}
use deploy_hub.Ordered.{take, sort}
use deploy_hub.Ordered.Top.{IsTop, take-sort}
use deploy_hub.Api.Access.{User, is_admin}
use deploy_hub.Api.Audit.{
  Logged, newer, newer_joined, is_of_project, is_shown, in_query_range, project_of, join_projects,
  matches, min, answer, unprocessable, get_audit_logs, list_global_audit_logs, query_audit_logs,
}

irrefl : (a : Logged) → newer a a ≡ false
irrefl a = ground arith

trans : (a b c : Logged) → newer a b ≡ true → newer b c ≡ true → newer a c ≡ true
trans a b c h g = ground (arith, h, g)

-- The event of the row is of this project, which is in the table.
abbrev IsJoined : List Project → Logged × Project → Type 0
IsJoined ps (l, p) = project_of l ps ≡ some p

-- Who may see a row, with the project that it is joined with.
abbrev MaySee : User → List Project → Logged × Project → Type 0
MaySee u ps (l, p) =
    (project_of l ps ≡ some p)
    × ((is_admin u ≡ true) ⊎ ((l.event.user_id ≡ u.user_id) ⊎ (p.owner_id ≡ u.user_id)))

-- An answer of the endpoint over all projects.
pub record Shown (u : User) (limit : ℕ) (logs : List Logged) (ps : List Project)
    (rows : List (Logged × Project)) : Type 0 where
  pub at_most : length rows ≤ 100
  pub visible : All (MaySee u ps) rows
  pub top : IsTop newer_joined (is_shown u) limit (join_projects logs ps) rows

answered :
    {A : Type 0} (o : Outcome) (b : Bool) (detail : String) (page rows : List A)
    → (if b then answer o detail page else raised unprocessable) ≡ ok rows
    → (b ≡ true) × (page ≡ rows)
unfolding answer
answered none true detail page rows h = (refl, cc)
answered (some e) true detail page rows h = cc
answered o false detail page rows h = cc

-- The newest rows of the log that pass a test.
abbrev pub Newest : (Logged → Bool) → ℕ → List Logged → List Logged → Type 0
Newest = IsTop newer

newest :
    (p : Logged → Bool) (n : ℕ) (l : List Logged) → Newest p n l (take n (sort newer (select p l)))
newest p n l = take-sort newer irrefl trans p n l

-- At most `bound`, for a limit in a range below it.
abbrev pub Capped : (Logged → Bool) → ℕ → ℕ → List Logged → List Logged → Type 0
Capped p n bound logs rows = Newest p n logs rows × (length rows ≤ bound)

capped :
    (p : Logged → Bool) (n low bound : ℕ) (logs rows : List Logged)
    → in_query_range low bound n ≡ true
    → take n (sort newer (select p logs)) ≡ rows
    → Capped p n bound logs rows
capped p n low bound logs rows h e =
    let top = newest p n logs in
    subst (Capped p n bound logs) e (top, ground (arith, top.bounded, h))

project_logs :
    (o : Outcome) (k : String) (limit : ℕ) (logs rows : List Logged)
    → get_audit_logs o k limit logs ≡ ok rows
    → Capped (is_of_project k) limit 500 logs rows
unfolding get_audit_logs
project_logs o k limit logs rows h =
    let (b, e) =
      answered o (in_query_range 1 500 limit) "Failed to fetch audit logs"
        (take limit (sort newer (select (is_of_project k) logs))) rows h in
    capped (is_of_project k) limit 1 500 logs rows b e

admin_stage :
    (o : Outcome) (u : User) (b : Bool) (page rows : List Logged)
    → (if b
        then (if is_admin u
            then answer o "Database error" page
            else raised (http_exception 403 "Forbidden"))
        else raised unprocessable)
      ≡ ok rows
    → (b ≡ true) × (is_admin u ≡ true) × (page ≡ rows)
unfolding answer
admin_stage o u false page rows h = cc
admin_stage o u true page rows h = elim (Bool-cases (is_admin u)) [
  | inl a ↦ (refl, a, (answered o true "Database error" page rows (sym (rw a refl) ∙ h)).1)
  | inr a ↦ let bad : raised (http_exception 403 "Forbidden") ≡ ok rows = sym (rw a refl) ∙ h in cc
]

admin_logs :
    (o : Outcome) (u : User) (limit : ℕ) (logs rows : List Logged)
    → list_global_audit_logs o u limit logs ≡ ok rows
    → (is_admin u ≡ true) × Capped (λ l. true) limit 200 logs rows
unfolding list_global_audit_logs
admin_logs o u limit logs rows h =
    let (b, a, e) =
      admin_stage o u (in_query_range 0 200 limit)
        (take limit (sort newer (select (λ l. true) logs))) rows h in
    (a, capped (λ l. true) limit 0 200 logs rows b e)

queried_logs :
    (o : Outcome) (project_id user_id : Option String) (limit : ℕ) (logs rows : List Logged)
    → query_audit_logs o project_id user_id limit logs ≡ ok rows
    → Capped (matches project_id user_id) (min limit 500) 500 logs rows
unfolding query_audit_logs
queried_logs (some e) project_id user_id limit logs rows h = cc
queried_logs none project_id user_id limit logs rows h =
    capped (matches project_id user_id) (min limit 500) 0 500 logs rows (ground arith) cc

-- Every other reader of the log that is answered with rows gets the newest that it asks for: those of
-- the project, at most 500; all, at most 200, and only as an administrator; and those of the project
-- and the user that are given, at most 500, whatever the limit that is asked for.
pub audit_logs-Newest :
    (o : Outcome) (k : String) (u : User) (project_id user_id : Option String) (limit : ℕ)
    (logs rows : List Logged)
    → (get_audit_logs o k limit logs ≡ ok rows → Capped (is_of_project k) limit 500 logs rows)
      × (list_global_audit_logs o u limit logs ≡ ok rows
          → (is_admin u ≡ true) × Capped (λ l. true) limit 200 logs rows)
      × (query_audit_logs o project_id user_id limit logs ≡ ok rows
          → Capped (matches project_id user_id) (min limit 500) 500 logs rows)
audit_logs-Newest o k u project_id user_id limit logs rows = (
  project_logs o k limit logs rows,
  admin_logs o u limit logs rows,
  queried_logs o project_id user_id limit logs rows,
)

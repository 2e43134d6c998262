-- ===== src/Queries/Projects.antt =====
-- The statements on the table `projects`: internal/db/generated/projects.sql.go.
use go_spark.Base.{
  ℕ, suc, Text, Bool, ◌&&◌, ◌||◌, List, [], ◌∷◌, ◌++◌, ◌==◌, ltb, leb, if◌then◌else◌, keep_if,
  delete_if, count_if, max_key, order_by,
}
use go_spark.Schema.{Project}
use go_spark.Effect.{ok, err, Query, foreign_key_violation}
use go_spark.Queries.Users.{user_exists}

abbrev pub of_user : ℕ → Project → Bool
of_user user p = p.user_id == user

abbrev pub new_project : ℕ → Text → ℕ → List Project → Project
new_project user name now projects = record {
  id = suc (max_key (λ p. p.id) projects);
  user_id = user;
  name = name;
  created_at = now;
}

unfoldable pub create_project : ℕ → Text → Query Project
create_project user name now d =
    let p = new_project user name now d.projects in
    if user_exists user d.users
    then ok (p, record d { projects = d.projects ++ p ∷ [] })
    else err foreign_key_violation

abbrev pub is_target : ℕ → ℕ → Project → Bool
is_target id user p = (p.id == id) && of_user user p

unfoldable pub delete_project_by_id_and_user_id : ℕ → ℕ → Query ℕ
delete_project_by_id_and_user_id id user now d = ok (
  count_if (is_target id user) d.projects,
  record d { projects = delete_if (is_target id user) d.projects },
)

-- ORDER BY created_at DESC, id DESC
abbrev pub newest_first : Project → Project → Bool
newest_first p q = ltb q.created_at p.created_at || (q.created_at == p.created_at && leb q.id p.id)

unfoldable pub list_projects_by_user_id : ℕ → Query (List Project)
list_projects_by_user_id user now d =
    ok (order_by newest_first (keep_if (of_user user) d.projects), d)

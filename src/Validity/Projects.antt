-- ===== src/Validity/Projects.antt =====
-- The statements on projects keep a database well formed.
use go_spark.Base.{ℕ, Text, inl, inr, Bool-cases}
use go_spark.Effect.Invariants.{Maintains}
use go_spark.Queries.Users.{user_exists}
use go_spark.Queries.Projects.{
  create_project, delete_project_by_id_and_user_id, is_target, new_project,
}
use go_spark.Validity.Tables.{with_projects}
use go_spark.Validity.Sessions.{append-Owned, delete-Owned}
use go_spark.Validity.{Valid}

pub create_project-Valid : (user : ℕ) (name : Text) → Maintains Valid (create_project user name)
unfolding create_project
create_project-Valid user name = record {
  at = λ t d v. elim (Bool-cases (user_exists user d.users)) [
    | inr lost ↦ rw lost tt
    | inl here ↦ rw here (
        with_projects d v _ (
          append-Owned (λ r. r.user_id) d.users d.projects (new_project user name t d.projects)
            v.owners.projects here))
  ];
}

pub delete_project-Valid :
    (id user : ℕ) → Maintains Valid (delete_project_by_id_and_user_id id user)
unfolding delete_project_by_id_and_user_id
delete_project-Valid id user = record {
  at = λ t d v.
      with_projects d v _
        (delete-Owned (λ r. r.user_id) (is_target id user) d.users d.projects v.owners.projects);
}

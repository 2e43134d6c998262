-- ===== src/Projects/Scope.antt =====
-- What the calls on projects can touch.
use go_spark.Base.{
  ℕ, List, [], ◌∷◌, ◌++◌, delete_if, Bool-cases, inl, inr, ◌∙◌, arith, Text, ◌≡◌, refl, true, not,
  keep_if,
}
use go_spark.Schema.{Project, Db}
use go_spark.Queries.Users.{user_exists}
use go_spark.Queries.Reads.{reads}
use go_spark.Queries.Projects.{
  of_user, create_project, delete_project_by_id_and_user_id, is_target, new_project,
}
use go_spark.Effect.{Env, World}
use go_spark.Effect.Invariants.{Keeps, Maintains, Maintains-of_Reads, keeps_rules}
use go_spark.Validity.{Valid}
use go_spark.Validity.Rules.{valid_rules}
use go_spark.Projects.{
  create, list, delete, ProjectCall, create_called, list_called, delete_called, perform,
}

module _ (env : Env) (user : ℕ) where
  create-Keeps : (name : Text) → Keeps Valid (create env user name)
  unfolding create
  create-Keeps name = search (keeps_rules, valid_rules) depth 20

  list-Keeps : Keeps Valid (list env user)
  unfolding list
  list-Keeps = search (keeps_rules, valid_rules) depth 20

  delete-Keeps : (id : ℕ) → Keeps Valid (delete env id user)
  unfolding delete
  delete-Keeps id = search (keeps_rules, valid_rules) depth 20

  pub perform-Valid : (c : ProjectCall) (w : World) → Valid w.db → Valid (perform env user c w).db
  unfolding perform
  perform-Valid (create_called name) w v = (create-Keeps name).at w v
  perform-Valid list_called w v = list-Keeps.at w v
  perform-Valid (delete_called id) w v = (delete-Keeps id).at w v

-- The rows of the other users, in their order.
abbrev pub others : ℕ → List Project → List Project
others user ps = keep_if (λ p. not (of_user user p)) ps

-- A statement or a call that leaves the projects of other users alone.
abbrev Spares : ℕ → List Project → Db → Type 0
Spares user before d = others user d.projects ≡ before

others-append :
    (user : ℕ) (ps : List Project) (p : Project)
    → of_user user p ≡ true
    → others user (ps ++ p ∷ []) ≡ others user ps
unfolding keep_if
others-append user [] p own = rw own refl
others-append user (q ∷ ps) p own = ground (arith, own, others-append user ps p own)

others-delete :
    (id user : ℕ) (ps : List Project)
    → others user (delete_if (is_target id user) ps) ≡ others user ps
unfolding keep_if delete_if
others-delete id user [] = refl
others-delete id user (q ∷ ps) = ground (arith, others-delete id user ps)

create_project-Spares :
    (user : ℕ) (name : Text) (before : List Project)
    → Maintains (Spares user before) (create_project user name)
unfolding create_project
create_project-Spares user name before = record {
  at = λ t d h. elim (Bool-cases (user_exists user d.users)) [
    | inl here ↦
        rw here
          (others-append user d.projects (new_project user name t d.projects) (ground arith) ∙ h)
    | inr lost ↦ rw lost tt
  ];
}

delete_project-Spares :
    (id user : ℕ) (before : List Project)
    → Maintains (Spares user before) (delete_project_by_id_and_user_id id user)
unfolding delete_project_by_id_and_user_id
delete_project-Spares id user before = record { at = λ t d h. others-delete id user d.projects ∙ h }

module _ (env : Env) (user : ℕ) where
  ruleset spares_rules =
      (keeps_rules, Maintains-of_Reads, reads, create_project-Spares, delete_project-Spares)

  create-Spares :
      (before : List Project) (name : Text) → Keeps (Spares user before) (create env user name)
  unfolding create
  create-Spares before name = search (spares_rules) depth 20

  list-Spares : (before : List Project) → Keeps (Spares user before) (list env user)
  unfolding list
  list-Spares before = search (spares_rules) depth 20

  delete-Spares : (before : List Project) (id : ℕ) → Keeps (Spares user before) (delete env id user)
  unfolding delete
  delete-Spares before id = search (spares_rules) depth 20

  -- Whatever a user asks of the projects, and whether it fails or not, the projects of every other
  -- user stay as they are, in their order.
  pub perform_isolated :
      (c : ProjectCall) (w : World)
      → others user (perform env user c w).db.projects ≡ others user w.db.projects
  unfolding perform
  perform_isolated (create_called name) w =
      (create-Spares (others user w.db.projects) name).at w refl
  perform_isolated list_called w = (list-Spares (others user w.db.projects)).at w refl
  perform_isolated (delete_called id) w = (delete-Spares (others user w.db.projects) id).at w refl

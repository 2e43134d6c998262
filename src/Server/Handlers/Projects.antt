-- ===== src/Server/Handlers/Projects.antt =====
-- The handlers of internal/server/project_handlers.go.
use go_spark.Base.{ℕ, ◌==◌, Text, codes, Option, none, some, [], ◌∷◌, trim_space, if◌then◌else◌}
use go_spark.Schema.{User}
use go_spark.Effect.{
  Env, Err, Action, handle, project_name_required, project_name_too_long, project_not_found,
}
use go_spark.Projects
use go_spark.Server.{Server, Request, Response, TemplateData, FlashMessage, http_error}
use go_spark.Server.Flash.{set_flash, flash_success, flash_error}
use go_spark.Server.Decimal.{parse_int}
use go_spark.Server.Pages.{
  respond, redirect, new_template_data, render_new, internal_server_error, flash_cookies,
}
use go_spark.Server.Guards.{Handler}
use go_spark.Server.Handlers.{parsed, signed_in, check_details}
use go_spark.Server.Paths

abbrev positive : Option ℕ → Option ℕ
positive none = none
positive (some n) = if n == 0 then none else some n

unfoldable pub project_id_from_form : Text → Option ℕ
unfolding parse_int trim_space
project_id_from_form raw = positive (parse_int (trim_space raw))

-- The message on the field of the name, if the error is about it.
unfoldable pub create_project_fault : Err → Option Text
create_project_fault project_name_required = some (codes "Enter a project name.")
create_project_fault project_name_too_long = some (codes "Use a shorter project name.")
create_project_fault _ = none

module _ (env : Env) (s : Server) where
  abbrev listed : Request → ℕ → TemplateData → Option User → Action Response
  listed r status d none = respond (flash_cookies s r) (http_error 401)
  listed r status d (some user) =
      handle (Projects.list env user.id)
        (λ projects.
          render_new s r [] status (codes "projects_index.html") (record d { projects = projects }))
        (λ _. internal_server_error s r (flash_cookies s r))

  -- populateProjects with data that took the flash message, and the page with them.
  unfoldable pub projects_page : Request → ℕ → TemplateData → Action Response
  unfolding render_new internal_server_error
  projects_page r status d = listed r status d r.user

  unfoldable pub projects_index : Handler
  unfolding projects_page new_template_data
  projects_index r = projects_page r 200 (new_template_data s r (codes "Projects"))

  -- A flash message and the list again.
  abbrev back : Request → FlashMessage → Action Response
  back r m = redirect (set_flash s r m ∷ []) Paths.projects

  abbrev create_failed : Request → Option Text → Action Response
  create_failed r none = internal_server_error s r []
  create_failed r (some fault) =
      projects_page r 422 (record (new_template_data s r (codes "Projects")) {
        error = check_details;
        field_errors = (codes "name", fault) ∷ [];
      })

  unfoldable pub create_project : Handler
  unfolding signed_in parsed set_flash internal_server_error projects_page create_project_fault
      new_template_data
  create_project r = signed_in r.user λ user. parsed r.form λ form.
      handle (Projects.create env user.id (form.value (codes "name")))
        (λ _. back r (flash_success (codes "Project created.")))
        (λ e. create_failed r (create_project_fault e))

  abbrev delete_failed : Request → Err → Action Response
  delete_failed r project_not_found =
      back r (flash_error (codes "That project is no longer available."))
  delete_failed r _ = internal_server_error s r []

  abbrev delete_target : Request → User → Option ℕ → Action Response
  delete_target r user none = back r (flash_error (codes "Select a valid project to delete."))
  delete_target r user (some id) =
      handle (Projects.delete env id user.id)
        (λ _. back r (flash_success (codes "Project deleted."))) (delete_failed r)

  unfoldable pub delete_project : Handler
  unfolding signed_in parsed set_flash internal_server_error project_id_from_form
  delete_project r = signed_in r.user λ user.
      parsed r.form
        λ form. delete_target r user (project_id_from_form (form.value (codes "project_id")))

-- ===== src/Server/Handlers/TwoFactor.antt =====
-- The pages of the second factor, in internal/server/totp_handlers.go: twoFactorPage,
-- twoFactorSetup, twoFactorConfirm, twoFactorDisable and twoFactorRegenerateCodes.
use go_spark.Base.{ℕ, Text, codes, Bool, true, List, [], ◌∷◌, if◌then◌else◌}
use go_spark.Effect.{
  Env, Err, Action, handle, invalid_totp_code, totp_already_enabled, totp_not_enabled,
  totp_setup_not_started,
}
use go_spark.Auth.Totp
use go_spark.Server.{Server, Request, Response, TemplateData}
use go_spark.Server.Flash.{set_flash, flash_success}
use go_spark.Server.Pages.{
  redirect, new_template_data, render_new, internal_server_error, flash_cookies,
}
use go_spark.Server.Guards.{Handler}
use go_spark.Server.Handlers.{parsed, signed_in}
use go_spark.Server.Paths

module _ (env : Env) (s : Server) where
  abbrev factor_data : Request → TemplateData
  factor_data r = new_template_data s r (codes "Two-Factor Authentication")

  abbrev failed : Request → Action Response
  failed r = internal_server_error s r (flash_cookies s r)

  -- After newTemplateData, whose cookies stay.
  abbrev back : Request → Action Response
  back r = redirect (flash_cookies s r) Paths.account_two_factor

  abbrev with_setup : TemplateData → Text × Text → TemplateData
  with_setup d (secret, uri) = record d { totp_secret = secret; totp_otp_auth_uri = uri }

  -- The page with the pending setup's secret, if there is one.
  abbrev show_pending : Request → ℕ → ℕ → TemplateData → Action Response
  show_pending r user status d =
      handle (Totp.get_totp_setup_info env s.auth user)
        (λ setup. render_new s r [] status (codes "two_factor.html") (with_setup d setup))
        (λ _. failed r)

  abbrev show_if_pending : Request → ℕ → Bool → TemplateData → Action Response
  show_if_pending r user pending d =
      if pending
      then show_pending r user 200 d
      else render_new s r [] 200 (codes "two_factor.html") d

  abbrev with_remaining : TemplateData → Bool × ℕ → TemplateData
  with_remaining d (enabled, remaining) = record d { totp_backup_codes_remaining = remaining }

  abbrev show_state : Request → ℕ → Bool × Bool → Action Response
  show_state r user (pending, enabled) =
      let d = record (factor_data r) { totp_pending = pending; totp_enabled = enabled } in
      if enabled
      then handle (Totp.get_totp_status env s.auth user)
          (λ status. show_if_pending r user pending (with_remaining d status)) (λ _. failed r)
      else show_if_pending r user pending d

  unfoldable pub two_factor_page : Handler
  unfolding signed_in new_template_data render_new internal_server_error
  two_factor_page r = signed_in r.user λ user.
      handle (Totp.totp_setup_state env s.auth user.id) (show_state r user.id) (λ _. failed r)

  abbrev setup_failed : Request → Err → Action Response
  setup_failed r totp_already_enabled = redirect [] Paths.account_two_factor
  setup_failed r _ = internal_server_error s r []

  unfoldable pub two_factor_setup : Handler
  unfolding signed_in internal_server_error
  two_factor_setup r = signed_in r.user λ user.
      handle (Totp.begin_totp_setup env s.auth user.id) (λ _. redirect [] Paths.account_two_factor)
        (setup_failed r)

  -- The backup codes, which are shown once.
  abbrev show_codes : Request → List Text → Action Response
  show_codes r shown =
      render_new s r [] 200 (codes "two_factor_backup_codes.html") (record (factor_data r) {
        title = codes "Save Your Backup Codes";
        totp_enabled = true;
        totp_backup_codes = shown;
      })

  abbrev confirm_failed : Request → ℕ → Err → Action Response
  confirm_failed r user invalid_totp_code = show_pending r user 422 (record (factor_data r) {
    totp_pending = true;
    error = codes "That code is incorrect. Check your authenticator app and try again.";
  })
  confirm_failed r user totp_setup_not_started = back r
  confirm_failed r user totp_already_enabled = back r
  confirm_failed r user _ = failed r

  unfoldable pub two_factor_confirm : Handler
  unfolding signed_in parsed new_template_data render_new internal_server_error
  two_factor_confirm r = signed_in r.user λ user. parsed r.form λ form.
      handle (Totp.confirm_totp_setup env s.auth user.id (form.value (codes "code"))) (show_codes r)
        (confirm_failed r user.id)

  -- The page after a wrong code; an error of GetTOTPStatus counts as no codes left.
  abbrev wrong_code : Request → ℕ → Action Response
  wrong_code r user =
      let d = record (factor_data r) {
        totp_enabled = true;
        error = codes "That code is incorrect. Check your authenticator app or try a backup code.";
      } in
      handle (Totp.get_totp_status env s.auth user)
        (λ status. render_new s r [] 422 (codes "two_factor.html") (with_remaining d status))
        (λ _. render_new s r [] 422 (codes "two_factor.html") d)

  abbrev code_failed : Request → ℕ → Err → Action Response
  code_failed r user invalid_totp_code = wrong_code r user
  code_failed r user totp_not_enabled = back r
  code_failed r user _ = failed r

  unfoldable pub two_factor_disable : Handler
  unfolding signed_in parsed new_template_data render_new internal_server_error set_flash
  two_factor_disable r = signed_in r.user λ user. parsed r.form λ form.
      handle (Totp.disable_totp env s.auth user.id (form.value (codes "code")))
        (λ _.
          redirect
            (set_flash s r (flash_success (codes "Two-factor authentication has been disabled."))
              ∷ [])
            Paths.account_two_factor)
        (code_failed r user.id)

  unfoldable pub two_factor_regenerate_codes : Handler
  unfolding signed_in parsed new_template_data render_new internal_server_error
  two_factor_regenerate_codes r = signed_in r.user λ user. parsed r.form λ form.
      handle (Totp.regenerate_backup_codes env s.auth user.id (form.value (codes "code")))
        (show_codes r) (code_failed r user.id)

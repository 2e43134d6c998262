-- ===== src/Server/Flash.antt =====
-- The flash messages of internal/server/flash.go.
use go_spark.Base.{Text, codes, Option, none, some, List, [], ◌∷◌, if◌then◌else◌, is_empty}
use go_spark.Server.{Server, Request, Cookie, FlashMessage, lax, lasts_seconds}
use go_spark.Server.SignedValue.{derive_key, sign_value, verify_value}
use go_spark.Server.Paths
use go_spark.Server.Cookies.{secure_cookie, cleared}

abbrev pub flash_cookie_name : Text
flash_cookie_name = codes "flash"

module _ (s : Server) (r : Request) where
  -- The key of flash messages; a server that was built without one takes that of the tests.
  unfoldable pub flash_signing_key : Text
  unfolding derive_key
  flash_signing_key =
      if is_empty s.flash_key
      then derive_key s.auth.platform s.web (codes "insecure-default-flash-signing-key")
          (codes "flash")
      else s.flash_key

  unfoldable pub set_flash : FlashMessage → Cookie
  unfolding secure_cookie flash_signing_key sign_value
  set_flash m = record {
    name = flash_cookie_name;
    value =
        sign_value s.auth.platform s.web flash_signing_key (s.web.encode_flash (m.kind, m.message));
    path = Paths.home;
    lifetime = lasts_seconds 300;
    secure = secure_cookie s r;
    same_site = lax;
  }

  abbrev flash_message : Option (Text × Text) → Option FlashMessage
  flash_message none = none
  flash_message (some (kind, message)) = some (record { kind = kind; message = message })

  abbrev decoded_flash : Option Text → Option FlashMessage
  decoded_flash none = none
  decoded_flash (some payload) = flash_message (s.web.decode_flash payload)

  abbrev popped : Option Text → List Cookie × Option FlashMessage
  popped none = ([], none)
  popped (some value) = (
    cleared s r flash_cookie_name Paths.home lax ∷ [],
    decoded_flash (verify_value s.auth.platform s.web flash_signing_key value),
  )

  -- The message of the request, and the deletion of its cookie.
  unfoldable pub pop_flash : List Cookie × Option FlashMessage
  unfolding secure_cookie flash_signing_key verify_value
  pop_flash = popped (r.cookie flash_cookie_name)

abbrev pub flash_success : Text → FlashMessage
flash_success m = record { kind = codes "success"; message = m }

abbrev pub flash_error : Text → FlashMessage
flash_error m = record { kind = codes "error"; message = m }

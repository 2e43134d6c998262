-- ===== src/Server.antt =====
-- internal/server: what a handler reads of a request and what it writes.
pub mod SignedValue
pub mod Decimal
pub mod Cookies
pub mod Flash
pub mod Paths
pub mod PendingLogin
pub mod Pages
pub mod Guards
pub mod Handlers
pub mod SessionCookies
pub mod Chains
pub mod Routing
use go_spark.Base.{ℕ, Text, codes, Bool, Option, List, ◌++◌}
use go_spark.Schema.{User, Project}
use go_spark.Platform.{Web}
use go_spark.Auth.Service.{AuthService}
use go_spark.Auth.Sessions.{ManagedSession}

-- A form that was parsed: FormValue, and PostForm.Has.
pub record Form : Type 0 where
  pub value : Text → Text
  pub has : Text → Bool

-- A request. `form` is `none` where ParseForm fails; `user` is the user that loadSession put into
-- the context.
pub record Request : Type 0 where
  pub method : Text
  pub path : Text
  pub request_uri : Text
  pub query : Text → Text
  pub form : Option Form
  pub cookie : Text → Option Text
  pub tls : Bool
  pub remote_addr : Text
  pub forwarded_for : Text
  -- 0 where the length is unknown
  pub content_length : ℕ
  pub user : Option User

pub data SameSite : Type 0 where
  lax strict : SameSite

-- How long a browser keeps a cookie: until it is closed; for `Expires` and `MaxAge` in seconds; not
-- at all (`MaxAge: -1`).
pub data Lifetime : Type 0 where
  until_closed deleted : Lifetime
  lasts : ℕ → ℕ → Lifetime
  lasts_seconds : ℕ → Lifetime

-- http.Cookie; all are HttpOnly.
pub record Cookie : Type 0 where
  pub name : Text
  pub value : Text
  pub path : Text
  pub lifetime : Lifetime
  pub secure : Bool
  pub same_site : SameSite

pub record FlashMessage : Type 0 where
  pub kind : Text
  pub message : Text

-- The data of a page, as far as handlers set it; `passkeys` is left out.
pub record TemplateData : Type 0 where
  pub title : Text
  pub flash : Option FlashMessage
  pub error : Text
  pub field_errors : List (Text × Text)
  pub email : Text
  pub next : Text
  pub reset_token_invalid : Bool
  pub authenticated : Bool
  pub verified : Bool
  pub user : Option User
  pub password_min_length : ℕ
  pub managed_sessions : List ManagedSession
  pub projects : List Project
  pub totp_enabled : Bool
  pub totp_pending : Bool
  pub totp_secret : Text
  pub totp_otp_auth_uri : Text
  pub totp_backup_codes : List Text
  pub totp_backup_codes_remaining : ℕ

-- The status and the body: a redirect with 303, http.Error with the text of a status, or a page.
pub data Reply : Type 0 where
  see_other : Text → Reply
  http_error : ℕ → Reply
  page : ℕ → Text → TemplateData → Reply

-- The Set-Cookie headers in the order in which they were added, and the reply.
pub record Response : Type 0 where
  pub cookies : List Cookie
  pub reply : Reply

pub record Server : Type 0 where
  pub auth : AuthService
  pub web : Web
  pub cookie_secure : Bool
  pub password_min_length : ℕ
  pub cookie_signing_key : Text
  pub flash_key : Text

-- ===== src/Platform.antt =====
-- What the program takes from crypto/sha256, crypto/hmac, crypto/cipher, encoding/base64, net/mail,
-- net/url, the template engines, strings.ToLower and ToUpper, golang.org/x/crypto/argon2 and
-- github.com/pquerna/otp: the functions, as fields of records.
use go_spark.Base.{ℕ, Text, Bool, Option, List}

-- net/mail.Address: the display name, the address, and `String()` of the two.
pub record Address : Type 0 where
  pub name : Text
  pub address : Text
  pub text : Text

-- net/url.URL, as far as the program looks at it; `rest` is all else.
pub record Url : Type 0 where
  pub scheme : Text
  pub host : Text
  pub rest : Text

pub record Platform : Type 0 where
  -- strings.ToLower
  pub to_lower : Text → Text
  -- strings.ToUpper
  pub to_upper : Text → Text
  -- the hexadecimal SHA-256 digest
  pub sha256_hex : Text → Text
  -- HMAC-SHA256 of a key and a message, as bytes
  pub hmac_sha256 : Text → Text → Text
  -- hex.EncodeToString
  pub hex_encode : Text → Text
  -- base64.RawStdEncoding
  pub base64_std_encode : Text → Text
  pub base64_std_decode : Text → Option Text
  -- totp.GenerateCode of a secret at a number of seconds since 1970
  pub generate_code : Text → ℕ → Option Text
  -- url.PathEscape
  pub path_escape : Text → Text
  -- url.Values.Encode of the keys and values that were set
  pub encode_query : List (Text × Text) → Text
  -- mail.ParseAddress
  pub parse_address : Text → Option Address
  -- url.Parse
  pub parse_url : Text → Option Url
  -- base.JoinPath(path) with the query `token=…`, as a text
  pub link_with_token : Url → Text → Text → Text
  -- the subject, text and HTML templates of a name, executed on the link they show
  pub render : Text → Text → Option (Text × Text × Text)

-- A password hasher, which takes its salt as an argument: see internal/auth/password_hasher.go.
pub record PasswordHasher : Type 0 where
  pub hash : Text → Text → Text
  -- `none` for a hash that cannot be decoded
  pub verify : Text → Text → Option Bool

-- cipher.AEAD under a fixed key and with no additional data: `open` takes the nonce and what `seal`
-- made of it and a plaintext.
pub record Aead : Type 0 where
  pub nonce_size : ℕ
  pub seal : Text → Text → Text
  pub open_sealed : Text → Text → Option Text

-- A parsed redirect target, as far as safeRedirectPath looks at it: `IsAbs()`, the host, the decoded
-- path and `RequestURI()`.
pub record Target : Type 0 where
  pub is_absolute : Bool
  pub host : Text
  pub path : Text
  pub request_uri : Text

-- What the handlers take from encoding/base64, encoding/json and net/url.
pub record Web : Type 0 where
  -- base64.RawURLEncoding
  pub base64_url_encode : Text → Text
  pub base64_url_decode : Text → Option Text
  -- json.Marshal and Unmarshal of a flash message: its type and its text
  pub encode_flash : Text × Text → Text
  pub decode_flash : Text → Option (Text × Text)
  -- url.Parse
  pub parse_target : Text → Option Target
  -- url.QueryEscape
  pub query_escape : Text → Text

-- golang.org/x/crypto/argon2: IDKey of a password, a salt, the iterations, the memory in KiB, the
-- threads and the length of the key in bytes; and base64.RawStdEncoding.
pub record Argon2 : Type 0 where
  pub id_key : Text → Text → ℕ → ℕ → ℕ → ℕ → Text
  pub base64_raw_encode : Text → Text
  pub base64_raw_decode : Text → Option Text

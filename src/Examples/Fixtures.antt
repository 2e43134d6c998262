-- ===== src/Examples/Fixtures.antt =====
-- A service over concrete parameters, a clock and a database with two users.
use go_spark.Base.{ℕ, Text, codes, text_eq, false, true, [], ◌∷◌, ◌++◌, none, some, take}
use go_spark.Schema.{User, Session, Token, Db, empty_db}
use go_spark.Effect.{Env, World}
use go_spark.Platform.{Platform, PasswordHasher, Aead}
use go_spark.Auth.Service.{AuthService}

abbrev pub platform : Platform
platform = record {
  to_lower = λ t. t;
  to_upper = λ t. t;
  sha256_hex = λ t. codes "#" ++ t;
  hmac_sha256 = λ key t. key ++ t;
  hex_encode = λ t. t;
  base64_std_encode = λ t. t;
  base64_std_decode = λ t. some t;
  generate_code = λ secret at. some (take 6 (at ∷ secret));
  path_escape = λ t. t;
  encode_query = λ q. [];
  parse_address = λ t. some (record { name = []; address = t; text = t });
  parse_url = λ t. some (record { scheme = codes "https"; host = t; rest = [] });
  link_with_token = λ u path token. u.host ++ path ++ token;
  render = λ name link. some (name, link, link);
}

-- A hasher that keeps the password and forgets the salt.
abbrev pub hasher : PasswordHasher
hasher = record { hash = λ salt p. p; verify = λ h p. some (text_eq h p) }

-- A cipher that keeps nonce and plaintext as they are.
abbrev pub aead : Aead
aead = record { nonce_size = 1; seal = λ nonce p. p; open_sealed = λ nonce c. some c }

abbrev pub service : AuthService
service = record {
  platform = platform;
  hasher = hasher;
  email_change_notice_enabled = true;
  session_duration = 100;
  email_verification_token_duration = 50;
  password_reset_token_duration = 20;
  email_options = record { app_base_url = codes "spark.test"; from = codes "app@spark.test" };
  dummy_password_hash = codes "-";
  password_min_len = 3;
  totp_issuer = codes "spark";
  backup_code_key = codes "k";
  totp_secrets = aead;
}

-- Effects that happen one time unit apart and do not fail; the token drawn is always `t`.
abbrev pub env : Env
env = record { clock = λ n. n; fails = λ n. false; random = λ n. codes "t" }

abbrev pub ann : User
ann = record {
  id = 1;
  email = codes "ann@a.test";
  password_hash = codes "apple";
  email_verified_at = some 0;
  created_at = 0;
  webauthn_user_handle = codes "ha";
}

abbrev pub bob : User
bob = record {
  id = 2;
  email = codes "bob@b.test";
  password_hash = codes "berry";
  email_verified_at = none;
  created_at = 0;
  webauthn_user_handle = codes "hb";
}

abbrev pub session : ℕ → ℕ → Text → Session
session id user hash = record {
  id = id;
  user_id = user;
  token_hash = hash;
  expires_at = 1000;
  created_at = 0;
}

abbrev pub reset_token : Token
reset_token = record {
  id = 1;
  user_id = 1;
  token_hash = codes "#reset";
  expires_at = 1000;
  consumed_at = none;
  created_at = 0;
}

abbrev pub db : Db
db = record empty_db {
  users = ann ∷ bob ∷ [];
  sessions =
      session 1 1 (codes "#one") ∷ session 2 2 (codes "#two") ∷ session 3 1 (codes "#three") ∷ [];
  password_reset_tokens = reset_token ∷ [];
}

abbrev pub world : World
world = record { db = db; step = 0 }

abbrev pub new_world : World
new_world = record { db = empty_db; step = 0 }

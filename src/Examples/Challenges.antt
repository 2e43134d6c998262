-- ===== src/Examples/Challenges.antt =====
-- A login that asks for a second factor, over cookies whose encoding moves every letter up.
use go_spark.Base.{
  ◌+◌, ◌-◌, ◌≡◌, ◌≢◌, refl, arith, Text, codes, text_eq, true, false, none, some, [], ◌∷◌, ◌++◌,
  map, find_if, trim_space, byte_length, update_if, count_if, All, if◌then◌else◌, cut, split,
}
use go_spark.Schema.{UserTotp}
use go_spark.Effect.{ok, ◌>>=◌, pure, handle}
use go_spark.Platform.{Web}
use go_spark.SecretCipher.{decrypt}
use go_spark.Queries.Totp.{is_enabled}
use go_spark.Auth.Totp.Login.{Passes}
use go_spark.Server.{
  Server, Request, Form, Cookie, Response, lasts, deleted, strict, lax, see_other,
}
use go_spark.Server.SignedValue.{dot, sign_value, derive_key, verify_value}
use go_spark.Server.Decimal.{decimal, digits_of, read_digits, parse_int}
use go_spark.Server.Cookies.{
  TotpPendingLogin, set_totp_pending_cookie, totp_pending_login_from_cookie,
  totp_pending_cookie_name, session_cookie_name, secure_cookie, totp_pending_key, pending_payload,
  parse_pending, clear_totp_pending_cookie, set_session_cookie, session_cookie_max_age, parse_bool,
}
use go_spark.Server.PendingLogin.{pending_login_back, Signed}
use go_spark.Server.Guards.{safe_redirect_path}
use go_spark.Server.Handlers.{parsed}
use go_spark.Totp.{verify_with_counter, scan_windows}
use go_spark.Queries.Totp as Rows
use go_spark.AuthStore.Accounts
use go_spark.AuthStore.Totp as Store
use go_spark.AuthStore.Totp.{read_record}
use go_spark.Auth.Service.{generate_token}
use go_spark.Auth.Totp.{verify_totp_login, with_second_factor, verify_totp_code}
use go_spark.Queries.Sessions.{create_session}
use go_spark.Queries.Users.{user_exists}
use go_spark.Auth.Sessions.{create_session_for_user}
use go_spark.Server.Handlers.Login.{two_factor_challenge}
use go_spark.Server.SessionCookies.{challenge_sets_session}
use go_spark.Server.Paths
use go_spark.Examples.Fixtures.{env, service, aead, platform}
use go_spark.Examples.SecondFactor.{enabled_world, enabled-Valid, code}

abbrev pub encode : Text → Text
encode t = map (λ c. c + 64) t

abbrev pub decode : Text → Text
decode t = map (λ c. c - 64) t

pub decode-encode : (t : Text) → some (decode (encode t)) ≡ some t
decode-encode [] = refl
decode-encode (c ∷ t) = ground (arith, decode-encode t)

encode_no_dot : (t : Text) → All (λ x. x ≢ dot) (encode t)
encode_no_dot [] = tt
encode_no_dot (c ∷ t) = (omega arith, encode_no_dot t)

abbrev web : Web
web = record {
  base64_url_encode = encode;
  base64_url_decode = λ t. some (decode t);
  encode_flash = λ m. m.0 ++ m.1;
  decode_flash = λ t. some (t, []);
  parse_target = λ t. none;
  query_escape = λ t. t;
}

abbrev pub server : Server
server = record {
  auth = service;
  web = web;
  cookie_secure = true;
  password_min_length = 3;
  cookie_signing_key = codes "c";
  flash_key = codes "f";
}

abbrev form : Form
form = record {
  value = λ name. if text_eq name (codes "code") then code else [];
  has = λ name. false;
}

abbrev pub request : Text → Text → Request
request name value = record {
  method = codes "POST";
  path = Paths.account_two_factor_challenge;
  request_uri = Paths.account_two_factor_challenge;
  query = λ n. [];
  form = some form;
  cookie = λ n. if text_eq n name then some value else none;
  tls = true;
  remote_addr = [];
  forwarded_for = [];
  content_length = 0;
  user = none;
}

abbrev no_cookie : Request
no_cookie = request [] []

abbrev pending_cookie : Cookie
pending_cookie = record {
  name = totp_pending_cookie_name;
  value = encode (codes "1:true:0") ++ dot ∷ encode (codes "ctotp_pending1:true:0");
  path = Paths.account_two_factor_challenge;
  lifetime = lasts 300_000_000_000 300;
  secure = true;
  same_site = strict;
}

pending_set :
    (set_totp_pending_cookie server no_cookie env 1 true enabled_world).0 ≡ ok pending_cookie
unfolding set_totp_pending_cookie ◌>>=◌ secure_cookie totp_pending_key sign_value derive_key
    pending_payload decimal digits_of
pending_set = refl

abbrev challenge_request : Request
challenge_request = request totp_pending_cookie_name pending_cookie.value

pending_login_back_example :
    (totp_pending_login_from_cookie server challenge_request env enabled_world).0
    ≡ ok (some (record { user_id = 1; remember_me = true }))
unfolding text_eq
pending_login_back_example =
    pending_login_back env server decode-encode encode_no_dot no_cookie 1 true enabled_world
      pending_cookie (omega arith) (omega arith) (omega arith) pending_set challenge_request
      enabled_world refl

abbrev answer : Response
answer = record {
  cookies =
      record pending_cookie { value = []; lifetime = deleted }
      ∷ record {
        name = session_cookie_name;
        value = codes "t";
        path = Paths.home;
        lifetime = lasts 105 1;
        secure = true;
        same_site = lax;
      }
      ∷ [];
  reply = see_other Paths.account;
}

challenge_answered : (two_factor_challenge env server challenge_request enabled_world).0 ≡ ok answer
unfolding two_factor_challenge totp_pending_login_from_cookie ◌>>=◌ secure_cookie totp_pending_key
    sign_value derive_key pending_payload verify_value parse_pending parse_int parse_bool
    read_digits cut split handle parsed safe_redirect_path set_session_cookie session_cookie_max_age
    clear_totp_pending_cookie verify_totp_login with_second_factor verify_totp_code
    verify_with_counter trim_space byte_length scan_windows Rows.claim_totp_counter
    Store.claim_totp_counter find_if update_if count_if text_eq create_session_for_user
    generate_token Store.get_enabled_totp_by_user_id read_record decrypt
    Rows.get_enabled_totp_by_user_id Accounts.create_session create_session user_exists pure
challenge_answered = refl

challenge_sets_session_example :
    (pending : TotpPendingLogin) × (form' : Form) × (row : UserTotp) × (secret : Text) × Signed env
      server challenge_request pending
      (env.clock enabled_world.step)
    × (challenge_request.form ≡ some form')
    × (find_if (is_enabled pending.user_id) enabled_world.db.user_totp ≡ some row)
    × (decrypt platform aead row.secret ≡ ok secret)
    × Passes env service pending.user_id (form'.value (codes "code")) row secret enabled_world.db
unfolding text_eq
challenge_sets_session_example =
    challenge_sets_session env server challenge_request enabled_world answer enabled-Valid
      challenge_answered refl

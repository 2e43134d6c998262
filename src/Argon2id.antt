-- ===== src/Argon2id.antt =====
-- The password hashes of internal/auth/password_hasher.go.
pub mod Parameters
pub mod RoundTrip
use go_spark.Base.{
  ℕ, ◌*◌, ◌==◌, Text, codes, text_eq, Bool, false, ◌||◌, ◌&&◌, Option, none, some, List, [], ◌∷◌,
  ◌++◌, is_empty, length, split, cut, or_else, has_prefix, if◌then◌else◌,
}
use go_spark.Platform.{Platform, PasswordHasher, Argon2}
use go_spark.Server.Decimal.{decimal, parse_int, parse_uint}

abbrev pub default_argon2id_memory_kib : ℕ
default_argon2id_memory_kib = 19 * 1024

abbrev pub default_argon2id_iterations : ℕ
default_argon2id_iterations = 2

abbrev pub default_argon2id_threads : ℕ
default_argon2id_threads = 1

abbrev pub argon2id_key_length : ℕ
argon2id_key_length = 32

pub record Argon2idHasher : Type 0 where
  pub memory_kib : ℕ
  pub iterations : ℕ
  pub threads : ℕ
  pub pepper : Text

abbrev or_default : ℕ → ℕ → ℕ
or_default n d = if n == 0 then d else n

-- The memory, the iterations, the parallelism and the pepper of AuthOptions.
unfoldable pub new_argon2id_hasher : ℕ → ℕ → ℕ → Text → Argon2idHasher
new_argon2id_hasher memory_kib iterations threads pepper = record {
  memory_kib = or_default memory_kib default_argon2id_memory_kib;
  iterations = or_default iterations default_argon2id_iterations;
  threads = or_default threads default_argon2id_threads;
  pepper = pepper;
}

pub record Argon2idHashParams : Type 0 where
  pub memory_kib : ℕ
  pub iterations : ℕ
  pub threads : ℕ

-- argon2.Version
abbrev pub argon2_version : ℕ
argon2_version = 19

-- '$', ',' and '='
abbrev pub dollar : ℕ
dollar = b'$'

abbrev pub comma : ℕ
comma = b','

abbrev pub equals : ℕ
equals = b'='

-- An entry of the parameters, with neither side empty.
abbrev pub filled : Option (Text × Text) → Option (Text × Text)
filled none = none
filled (some (key, value)) = if is_empty key || is_empty value then none else some (key, value)

abbrev pub push : Option (Text × Text) → Option (List (Text × Text)) → Option (List (Text × Text))
push (some entry) (some entries) = some (entry ∷ entries)
push _ _ = none

-- The loop that fills `paramMap`.
unfoldable pub read_entries : List Text → Option (List (Text × Text))
unfolding cut
read_entries [] = some []
read_entries (e ∷ es) = push (filled (cut equals e)) (read_entries es)

-- The entry of a key that was written last; no entry is empty.
unfoldable pub value_of : Text → List (Text × Text) → Text
value_of key [] = []
value_of key ((k, v) ∷ es) = or_else (value_of key es) (if text_eq k key then v else [])

abbrev pub nonzero : Option ℕ → Option ℕ
nonzero none = none
nonzero (some n) = if n == 0 then none else some n

abbrev pub hash_params : Option ℕ → Option ℕ → Option ℕ → Option Argon2idHashParams
hash_params (some m) (some t) (some p) =
    some (record { memory_kib = m; iterations = t; threads = p })
hash_params _ _ _ = none

abbrev pub params_of : Option (List (Text × Text)) → Option Argon2idHashParams
params_of none = none
params_of (some es) =
    hash_params (nonzero (parse_uint 32 (value_of (codes "m") es)))
      (nonzero (parse_uint 32 (value_of (codes "t") es)))
      (nonzero (parse_uint 8 (value_of (codes "p") es)))

unfoldable pub parse_argon2id_params : Text → Option Argon2idHashParams
unfolding read_entries value_of parse_uint split
parse_argon2id_params raw = params_of (read_entries (split comma raw))

abbrev is_version : Option ℕ → Bool
is_version none = false
is_version (some n) = n == argon2_version

abbrev pub after_two : Text → Text
after_two (_ ∷ _ ∷ rest) = rest
after_two _ = []

-- "v=" and the version
abbrev pub has_version : Text → Bool
has_version part =
    if has_prefix (codes "v=") part then is_version (parse_int (after_two part)) else false

-- What a hash carries: its parameters, its salt and its key.
abbrev pub Decoded : Type 0
Decoded = Argon2idHashParams × Text × Text

abbrev pub decoded : Option Argon2idHashParams → Option Text → Option Text → Option Decoded
decoded (some params) (some salt) (some hash) =
    if is_empty salt || is_empty hash then none else some (params, salt, hash)
decoded _ _ _ = none

module _ (p : Platform) (a : Argon2) where
  abbrev pub read_parts : List Text → Option Decoded
  read_parts (_ ∷ name ∷ version ∷ params ∷ salt ∷ hash ∷ []) =
      if text_eq name (codes "argon2id") && has_version version
      then decoded (parse_argon2id_params params) (a.base64_raw_decode salt)
          (a.base64_raw_decode hash)
      else none
  read_parts _ = none

  unfoldable pub decode_argon2id_hash : Text → Option Decoded
  unfolding parse_argon2id_params split parse_int has_prefix
  decode_argon2id_hash encoded = read_parts (split dollar encoded)

  module _ (h : Argon2idHasher) where
    unfoldable pub password_input : Text → Text
    password_input password =
        if is_empty h.pepper then password else p.hmac_sha256 h.pepper password

    abbrev pub params_text : Text
    params_text =
        codes "m="
        ++ (decimal h.memory_kib
            ++ comma
              ∷ (codes "t=" ++ (decimal h.iterations ++ comma ∷ (codes "p=" ++ decimal h.threads))))

    -- `hash` under a salt that was drawn.
    unfoldable pub hash : Text → Text → Text
    unfolding password_input decimal
    hash salt password =
        let key =
          a.id_key (password_input password) salt h.iterations h.memory_kib h.threads
            argon2id_key_length in
        dollar
        ∷ (codes "argon2id"
            ++ dollar
              ∷ (codes "v="
                  ++ (decimal argon2_version
                      ++ dollar
                        ∷ (params_text
                            ++ dollar
                              ∷ (a.base64_raw_encode salt ++ dollar ∷ a.base64_raw_encode key)))))

    abbrev pub compare : Text → Option Decoded → Option Bool
    compare password none = none
    compare password (some (params, salt, key)) = some (
        text_eq key (
          a.id_key (password_input password) salt params.iterations params.memory_kib params.threads
            (length key)))

    -- `none` for a hash that cannot be decoded.
    unfoldable pub verify : Text → Text → Option Bool
    unfolding decode_argon2id_hash password_input
    verify encoded password = compare password (decode_argon2id_hash encoded)

    -- The hasher of the auth service.
    abbrev pub argon2id_hasher : PasswordHasher
    argon2id_hasher = record { hash = hash; verify = verify }

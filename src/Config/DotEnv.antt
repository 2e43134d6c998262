-- ===== src/Config/DotEnv.antt =====
-- A file of variables: parseDotEnv of internal/config/config.go.
use go_spark.Base.{
  ◌==◌, ◌||◌, ◌&&◌, not, Text, codes, Bool, Option, none, some, List, [], ◌∷◌, is_empty, trim_space,
  split, cut, contains, has_prefix, starts_with, ends_with, drop, take, length, ◌-◌, if◌then◌else◌,
}
use go_spark.Config.{◌>>=◌}

-- An entry of a file of variables: `KEY=value` with an optional "export " in front.
abbrev is_name : Text → Bool
is_name key = not (is_empty key) && not (contains b' ' key) && not (contains 9 key)

abbrev without_export : Text → Text
without_export line = if has_prefix (codes "export ") line then drop 7 line else line

-- The value without its quotes; `none` where the closing one is missing.
unfoldable pub unquote_dot_env_value : Text → Option Text
unquote_dot_env_value [] = some []
unquote_dot_env_value (q ∷ rest) =
    if (q == 34) || (q == 39)
    then (if ends_with q rest then some (take (length rest - 1) rest) else none)
    else some (q ∷ rest)

abbrev read_pair : Option (Text × Text) → Option (Text × Text)
read_pair none = none
read_pair (some (key, value)) =
    if is_name (trim_space key)
    then (unquote_dot_env_value (trim_space value) >>= λ v. some (trim_space key, v))
    else none

-- The entries in the order of the file; of two with one key, the later one counts.
unfoldable pub read_lines : List Text → Option (List (Text × Text))
unfolding trim_space cut unquote_dot_env_value has_prefix contains ends_with
read_lines [] = some []
read_lines (raw ∷ raws) =
    let line = trim_space raw in
    let rest = read_lines raws in
    if is_empty line || starts_with b'#' line
    then rest
    else read_pair (cut b'=' (without_export line)) >>= λ pair. rest >>= λ es. some (pair ∷ es)

unfoldable pub parse_dot_env : Text → Option (List (Text × Text))
unfolding read_lines split
parse_dot_env content = read_lines (split 10 content)

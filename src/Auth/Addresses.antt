-- ===== src/Auth/Addresses.antt =====
-- normalizeEmail and isValidEmail of internal/auth/auth.go.
use go_spark.Base.{
  ℕ, Text, text_eq, Bool, true, false, not, ◌&&◌, ◌||◌, Option, none, some, List, [], ◌∷◌, ◌==◌,
  ltb, leb, length, trim_space, is_empty, byte_length, cut, split, starts_with, ends_with,
}
use go_spark.Platform.{Platform, Address}

unfoldable pub normalize_email : Platform → Text → Text
normalize_email p email = p.to_lower (trim_space email)

abbrev pub is_lower : ℕ → Bool
is_lower c = leb b'a' c && leb c b'z'

abbrev pub is_label_char : ℕ → Bool
is_label_char c = is_lower c || (leb b'0' c && leb c b'9') || c == b'-'

unfoldable pub all_chars : (ℕ → Bool) → Text → Bool
all_chars p [] = true
all_chars p (c ∷ s) = p c && all_chars p s

unfoldable pub any_char : (ℕ → Bool) → Text → Bool
any_char p [] = false
any_char p (c ∷ s) = p c || any_char p s

unfoldable pub is_label : Text → Bool
unfolding all_chars
is_label l =
    not (is_empty l || ltb 63 (byte_length l) || starts_with b'-' l || ends_with b'-' l)
    && all_chars is_label_char l

unfoldable pub all_labels : List Text → Bool
unfolding is_label
all_labels [] = true
all_labels (l ∷ ls) = is_label l && all_labels ls

unfoldable pub last_label : List Text → Text
last_label [] = []
last_label (l ∷ []) = l
last_label (l ∷ m ∷ ls) = last_label (m ∷ ls)

unfoldable pub is_domain : List Text → Bool
unfolding all_labels last_label any_char
is_domain labels =
    not (ltb (length labels) 2)
    && all_labels labels
    && not (ltb (byte_length (last_label labels)) 2)
    && any_char is_lower (last_label labels)

-- `mail.ParseAddress` accepts the text as an address with no display name, and changes nothing.
abbrev pub is_bare_address : Text → Option Address → Bool
is_bare_address email none = false
is_bare_address email (some a) = is_empty a.name && text_eq a.address email

abbrev pub is_split : Option (Text × Text) → Bool
is_split none = false
is_split (some (local, domain)) =
    not (is_empty local || is_empty domain || ltb 64 (byte_length local))
    && is_domain (split b'.' domain)

unfoldable pub is_valid_email : Platform → Text → Bool
unfolding is_domain
is_valid_email p email =
    not (ltb 254 (byte_length email))
    && is_bare_address email (p.parse_address email)
    && is_split (cut b'@' email)

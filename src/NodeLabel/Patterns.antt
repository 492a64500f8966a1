-- ===== src/NodeLabel/Patterns.antt =====
-- The regular expressions of packages/k8s-baseline/src/trusted-node-label-reconciler-core.ts, each as
-- a test over the units of a text.
use hulumi.Prelude.{
  ℕ, Bool, false, ◌&&◌, ◌||◌, Option, none, some, List, [], ◌∷◌, Text, lit, text_eq, starts_with,
  ends_with, split_on, leb, ◌==◌, all, length, if◌then◌else◌,
}

abbrev pub is_lower : ℕ → Bool
is_lower c = leb b'a' c && leb c b'z'

abbrev pub is_upper : ℕ → Bool
is_upper c = leb b'A' c && leb c b'Z'

abbrev pub is_digit : ℕ → Bool
is_digit c = leb b'0' c && leb c b'9'

abbrev pub is_lower_hex : ℕ → Bool
is_lower_hex c = is_digit c || leb b'a' c && leb c b'f'

abbrev pub is_alphanumeric : ℕ → Bool
is_alphanumeric c = is_lower c || is_upper c || is_digit c

abbrev pub has_length : ℕ → ℕ → Text → Bool
has_length lo hi s = leb lo (length s) && leb (length s) hi

-- INSTANCE_ID_RE: i- and eight or seventeen hexadecimal digits.
unfoldable pub is_instance_id : Text → Bool
unfolding starts_with
is_instance_id (c ∷ d ∷ hex) =
    c == b'i' && d == b'-' && (length hex == 8 || length hex == 17) && all is_lower_hex hex
is_instance_id _ = false

-- AWS_ACCOUNT_ID_RE
unfoldable pub is_account_id : Text → Bool
is_account_id s = length s == 12 && all is_digit s

abbrev is_pair_of_letters : Text → Bool
is_pair_of_letters s = length s == 2 && all is_lower s

abbrev is_word : Text → Bool
is_word s = leb 1 (length s) && all is_lower s

abbrev is_one_digit : Text → Bool
is_one_digit (d ∷ []) = is_digit d
is_one_digit _ = false

abbrev is_digit_and_letter : Text → Bool
is_digit_and_letter (d ∷ l ∷ []) = is_digit d && is_lower l
is_digit_and_letter _ = false

-- [a-z]{2}(?:-gov)?-[a-z]+- and an ending, by the parts between the dashes.
abbrev has_region_parts : (Text → Bool) → List Text → Bool
has_region_parts ending (a ∷ b ∷ c ∷ []) = is_pair_of_letters a && is_word b && ending c
has_region_parts ending (a ∷ g ∷ b ∷ c ∷ []) =
    is_pair_of_letters a && text_eq g (lit "gov") && is_word b && ending c
has_region_parts ending _ = false

-- AWS_REGION_RE
unfoldable pub is_region : Text → Bool
unfolding split_on text_eq
is_region s = has_region_parts is_one_digit (split_on b'-' s)

-- The first group of PROVIDER_ID_RE.
unfoldable pub is_zone : Text → Bool
unfolding split_on text_eq
is_zone s = has_region_parts is_digit_and_letter (split_on b'-' s)

abbrev provider_parts : List Text → Option (Text × Text)
provider_parts (scheme ∷ [] ∷ [] ∷ zone ∷ instance_id ∷ []) =
    if text_eq scheme (lit "aws:") && is_zone zone && is_instance_id instance_id
    then some (zone, instance_id)
    else none
provider_parts _ = none

-- PROVIDER_ID_RE: the availability zone and the instance id of aws:///zone/instance. Neither group
-- can hold a slash.
unfoldable pub parse_provider_id : Text → Option (Text × Text)
unfolding split_on text_eq is_zone is_instance_id
parse_provider_id s = provider_parts (split_on b'/' s)

abbrev ends_ok : (ℕ → Bool) → Text → Bool
ends_ok p [] = false
ends_ok p (c ∷ []) = p c
ends_ok p (c ∷ d ∷ rest) = ends_ok p (d ∷ rest)

abbrev starts_ok : (ℕ → Bool) → Text → Bool
starts_ok p [] = false
starts_ok p (c ∷ rest) = p c

-- A first and a last unit of one class, and all of another.
abbrev is_label : (edge middle : ℕ → Bool) → Text → Bool
is_label edge middle s = has_length 1 63 s && starts_ok edge s && ends_ok edge s && all middle s

-- DNS_LABEL_RE
unfoldable pub is_dns_label : Text → Bool
is_dns_label s =
    is_label (λ c. is_lower c || is_digit c) (λ c. is_lower c || is_digit c || c == b'-') s

abbrev is_label_unit : ℕ → Bool
is_label_unit c = is_alphanumeric c || c == b'_' || c == b'.' || c == b'-'

-- LABEL_NAME_RE and LABEL_VALUE_RE, which are one expression.
unfoldable pub is_label_name : Text → Bool
is_label_name s = is_label is_alphanumeric is_label_unit s

-- BOUNDED_IDENTIFIER_RE
unfoldable pub is_bounded_identifier : Text → Bool
is_bounded_identifier s =
    has_length 1 100 s
    && starts_ok is_alphanumeric s
    && all (λ c. is_label_unit c || c == b':' || c == b'/') s

unfoldable pub restriction_prefix : Text
restriction_prefix = lit "node-restriction.kubernetes.io"

abbrev valid_key_parts : List Text → Bool
valid_key_parts (prefix ∷ name ∷ []) =
    leb (length prefix) 253
    && all is_dns_label (split_on b'.' prefix)
    && is_label_name name
    && (text_eq prefix restriction_prefix || ends_with prefix (b'.' ∷ restriction_prefix))
valid_key_parts _ = false

unfoldable pub is_valid_protected_label_key : Text → Bool
unfolding split_on is_dns_label is_label_name text_eq ends_with restriction_prefix
is_valid_protected_label_key key = valid_key_parts (split_on b'/' key)

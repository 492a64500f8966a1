-- ===== src/Policies/Oidc/Gcp.antt =====
-- The condition of a provider of GCP of packages/policies/src/github/g-oidc-1.ts: its tokens, and the
-- conjunctions of equalities that it may be.
pub mod Grammar
pub mod Sound
pub mod Complete
pub mod Conjunction
mod Tests
use hulumi.Prelude.{
  ℕ, zero, suc, Bool, true, false, not, ◌&&◌, ◌||◌, Option, none, some, List, [], ◌∷◌, ◌++◌, Text,
  lit, text_eq, text_contains, starts_with, any, all, trim, is_space, length, map, ltb, leb, ◌==◌,
  ◌+◌, if◌then◌else◌,
}
use hulumi.Policies.Urn.{is_empty}
use hulumi.Policies.Oidc.{has_ascii_control, max_oidc_input_length}

abbrev pub required_gcp_assertions : List Text
required_gcp_assertions =
    lit "assertion.repository" ∷ lit "assertion.job_workflow_ref" ∷ lit "assertion.environment" ∷ []

abbrev pub max_gcp_tokens : ℕ
max_gcp_tokens = 128

abbrev pub max_gcp_paren_depth : ℕ
max_gcp_paren_depth = 16

pub data GcpToken : Type 0 where
  identifier string_token : Text → GcpToken
  and_token equals_token left_paren right_paren : GcpToken

-- What stands at the cursor: white space, a token that goes on for some more units, or neither.
pub data Lexeme : Type 0 where
  space unknown : Lexeme
  token : GcpToken → (more : ℕ) → Lexeme

abbrev is_identifier_start : ℕ → Bool
is_identifier_start c = leb b'A' c && leb c b'Z' || leb b'a' c && leb c b'z' || c == b'_'

abbrev is_identifier_unit : ℕ → Bool
is_identifier_unit c = is_identifier_start c || leb b'0' c && leb c b'9' || c == b'.'

unfoldable take_while : (ℕ → Bool) → Text → Text
take_while test [] = []
take_while test (c ∷ s) = let rest = take_while test s in if test c then c ∷ rest else []

abbrev prepend_unit : ℕ → Option Text → Option Text
prepend_unit c none = none
prepend_unit c (some s) = some (c ∷ s)

-- The units before the closing quote.
unfoldable until_quote : ℕ → Text → Option Text
unfolding has_ascii_control
until_quote quote [] = none
until_quote quote (c ∷ s) =
    let rest = prepend_unit c (until_quote quote s) in
    if c == quote then some [] else if c == b'\\' || has_ascii_control (c ∷ []) then none else rest

abbrev quoted : Option Text → Lexeme
quoted none = unknown
quoted (some value) = token (string_token value) (length value + 1)

abbrev named : ℕ → Text → Lexeme
named c rest = token (identifier (c ∷ rest)) (length rest)

-- The body of the loop of `tokenizeGcpCondition`.
unfoldable lexeme : ℕ → Text → Lexeme
unfolding is_space starts_with until_quote take_while
lexeme c s =
    if is_space c
    then space
    else if starts_with (c ∷ s) (lit "&&")
    then token and_token 1
    else if starts_with (c ∷ s) (lit "==")
    then token equals_token 1
    else if c == b'('
    then token left_paren 0
    else if c == b')'
    then token right_paren 0
    else if c == b'\'' || c == b'"'
    then quoted (until_quote c s)
    else if is_identifier_start c
    then named c (take_while is_identifier_unit s)
    else unknown

abbrev prepend_token : GcpToken → Option (List GcpToken) → Option (List GcpToken)
prepend_token t none = none
prepend_token t (some ts) = some (t ∷ ts)

-- `push`, which fails where there is no room for the token.
abbrev push : ℕ → Lexeme → (ℕ → ℕ → Option (List GcpToken)) → Option (List GcpToken)
push room space continue = continue 0 room
push room unknown continue = none
push zero (token t more) continue = none
push (suc room) (token t more) continue = prepend_token t (continue more room)

-- The loop; `skip` units are part of the last token.
unfoldable tokens_from : (skip room : ℕ) → Text → Option (List GcpToken)
unfolding lexeme
tokens_from skip room [] = some []
tokens_from (suc skip) room (c ∷ s) = tokens_from skip room s
tokens_from zero room (c ∷ s) = push room (lexeme c s) (λ skip room. tokens_from skip room s)

unfoldable pub tokenize_gcp_condition : Text → Option (List GcpToken)
unfolding tokens_from
tokenize_gcp_condition condition =
    if length condition == 0 || ltb max_oidc_input_length (length condition)
    then none
    else tokens_from 0 max_gcp_tokens condition

abbrev pub Bindings : Type 0
Bindings = List (Text × Text)

abbrev starts_identifier : Text → Bool
starts_identifier [] = false
starts_identifier (c ∷ s) =
    is_identifier_start c && all (λ d. is_identifier_start d || leb b'0' d && leb d b'9') s

abbrev after_assertion : Text → Text → Bool
after_assertion [] s = starts_identifier s
after_assertion (p ∷ prefix) [] = false
after_assertion (p ∷ prefix) (c ∷ s) = p == c && after_assertion prefix s

-- GCP_ASSERTION_PATTERN
unfoldable pub is_gcp_assertion : Text → Bool
is_gcp_assertion s = after_assertion (lit "assertion.") s

unfoldable pub is_binding : Text → Text → Bool
unfolding is_gcp_assertion text_eq trim has_ascii_control
is_binding name value = not (
    not (is_gcp_assertion name)
    || length value == 0
    || not (text_eq value (trim value))
    || any (λ c. c == b'*') value
    || has_ascii_control value)

-- The bindings and the tokens that are left.
abbrev pub Parsed : Type 0
Parsed = Option (Bindings × List GcpToken)

abbrev pub bind : Text → Text → List GcpToken → Parsed
bind name value rest = if is_binding name value then some ((name, value) ∷ [], rest) else none

abbrev pub name_of : GcpToken → Option Text
name_of (identifier n) = some n
name_of _ = none

abbrev pub string_of : GcpToken → Option Text
string_of (string_token v) = some v
string_of _ = none

abbrev pub is_equals : GcpToken → Bool
is_equals equals_token = true
is_equals _ = false

-- An identifier and a string, in either order.
abbrev pub bind_operands :
    (name value flipped_name flipped_value : Option Text) → List GcpToken → Parsed
bind_operands (some n) (some v) _ _ rest = bind n v rest
bind_operands _ _ (some n) (some v) rest = bind n v rest
bind_operands _ _ _ _ rest = none

abbrev pub parse_equality : List GcpToken → Parsed
parse_equality (first ∷ equals ∷ second ∷ rest) =
    if is_equals equals
    then bind_operands (name_of first) (string_of second) (name_of second) (string_of first) rest
    else none
parse_equality _ = none

abbrev pub close_paren : Parsed → Parsed
close_paren (some (bindings, right_paren ∷ rest)) = some (bindings, rest)
close_paren _ = none

abbrev pub parse_term : (List GcpToken → Parsed) → List GcpToken → Parsed
parse_term expression (left_paren ∷ rest) = close_paren (expression rest)
parse_term expression tokens = parse_equality tokens

abbrev pub add_bindings : Bindings → Parsed → Parsed
add_bindings bindings none = none
add_bindings bindings (some (more, rest)) = some (bindings ++ more, rest)

abbrev pub while_and : Parsed → (List GcpToken → Parsed) → Parsed
while_and none terms = none
while_and (some (bindings, and_token ∷ rest)) terms = add_bindings bindings (terms rest)
while_and (some (bindings, rest)) terms = some (bindings, rest)

-- One term and those after each `&&`, as many as the fuel.
abbrev pub parse_terms : (List GcpToken → Parsed) → ℕ → List GcpToken → Parsed
parse_terms term zero tokens = none
parse_terms term (suc fuel) tokens = while_and (term tokens) (parse_terms term fuel)

-- `levels` counts the depths that are left.
unfoldable pub parse_expression : (levels : ℕ) → List GcpToken → Parsed
unfolding is_binding
parse_expression zero tokens = none
parse_expression (suc levels) tokens =
    parse_terms (parse_term (parse_expression levels)) (length tokens) tokens

pub data GcpViolation : Type 0 where
  not_literal not_tokens not_conjunction : GcpViolation
  bound_twice : (name : Text) → GcpViolation
  missing_assertions : List Text → GcpViolation

abbrev pub absent : List Text → List Text → List Text
absent [] seen = []
absent (key ∷ required) seen =
    let rest = absent required seen in if text_contains seen key then rest else key ∷ rest

abbrev pub required_violation : List Text → Option GcpViolation
required_violation [] = none
required_violation (key ∷ keys) = some (missing_assertions (key ∷ keys))

-- The loop over the bindings, and the required assertions.
unfoldable pub bindings_violation : List Text → Bindings → Option GcpViolation
unfolding text_contains
bindings_violation seen [] = required_violation (absent required_gcp_assertions seen)
bindings_violation seen ((name, value) ∷ bindings) =
    if text_contains seen name
    then some (bound_twice name)
    else bindings_violation (name ∷ seen) bindings

abbrev pub parsed_violation : Parsed → Option GcpViolation
parsed_violation (some (bindings, [])) = bindings_violation [] bindings
parsed_violation _ = some not_conjunction

abbrev pub tokens_violation : Option (List GcpToken) → Option GcpViolation
tokens_violation (some (t ∷ tokens)) =
    parsed_violation (parse_expression (suc max_gcp_paren_depth) (t ∷ tokens))
tokens_violation _ = some not_tokens

unfoldable pub gcp_condition_violation : Option Text → Option GcpViolation
unfolding tokenize_gcp_condition parse_expression bindings_violation
gcp_condition_violation none = some not_literal
gcp_condition_violation (some condition) = tokens_violation (tokenize_gcp_condition condition)

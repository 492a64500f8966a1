-- ===== src/Cidr.antt =====
-- packages/k8s-baseline/src/cidr-coverage.ts, of which packages/policies/src/k8s/cidr-coverage.ts is
-- a copy. A `bigint` is a natural number; the left shift by k is a multiplication by 2 ^ k, `&` with
-- a mask of k low bits is the rest by 2 ^ k, and `|` of numbers with no common bit is their sum.
pub mod Blocks
pub mod Sorting
pub mod Coverage
mod Tests
use hulumi.Prelude.{
  ℕ, zero, suc, ◌+◌, ◌-◌, ◌*◌, ◌%◌, ◌^◌, Bool, true, false, not, ◌&&◌, ◌||◌, Option, none, some,
  List, [], ◌∷◌, ◌++◌, Text, leb, ltb, ◌==◌, all, length, split_on, if◌then◌else◌,
}

pub data IpFamily : Type 0 where
  ipv4 ipv6 : IpFamily

pub record ParsedCidr : Type 0 where
  pub family : IpFamily
  pub start : ℕ
  pub end : ℕ
  pub prefix_len : ℕ

unfoldable pub bits_of : IpFamily → ℕ
bits_of ipv4 = 32
bits_of ipv6 = 128

-- `IPV4_MAX` and `IPV6_MAX`
unfoldable pub max_of : IpFamily → ℕ
unfolding bits_of
max_of family = 2 ^ bits_of family - 1

infixl 5 ◌>>=◌ ◌>>◌
abbrev pub ◌>>=◌ : {A B : Type 0} → Option A → (A → Option B) → Option B
none >>= k = none
some a >>= k = k a

abbrev pub ◌>>◌ : {B : Type 0} → Option (Unit {0}) → Option B → Option B
m >> k = m >>= λ _. k

-- `if (!test) return undefined;`
abbrev pub require : Bool → Option (Unit {0})
require true = some tt
require false = none

abbrev pub is_digit : ℕ → Bool
is_digit c = leb b'0' c && leb c b'9'

abbrev has_leading_zero : Text → Bool
has_leading_zero [] = false
has_leading_zero (c ∷ rest) = ltb 0 (length rest) && c == b'0'

unfoldable pub decimal_from : ℕ → Text → ℕ
decimal_from n [] = n
decimal_from n (c ∷ rest) = decimal_from (n * 10 + (c - b'0')) rest

-- One to three digits with no leading zero, as a number: an octet or a prefix length.
unfoldable pub short_decimal : Text → Option ℕ
unfolding decimal_from
short_decimal part = do
  require (leb 1 (length part) && leb (length part) 3 && all is_digit part)
  require (not (has_leading_zero part))
  some (decimal_from 0 part)

unfoldable pub octets : ℕ → List Text → Option ℕ
unfolding short_decimal
octets value [] = some value
octets value (part ∷ parts) = do
  n ← short_decimal part
  require (leb n 255)
  octets (value * 256 + n) parts

unfoldable pub parse_ipv4 : Text → Option ℕ
unfolding octets split_on
parse_ipv4 addr = do let parts = split_on b'.' addr; require (length parts == 4); octets 0 parts

abbrev pub contains_unit : ℕ → Text → Bool
contains_unit u [] = false
contains_unit u (c ∷ rest) = c == u || contains_unit u rest

-- `(addr.match(/::/g) ?? []).length`
unfoldable pub double_colon_count : Text → ℕ
double_colon_count [] = 0
double_colon_count (c ∷ []) = 0
double_colon_count (c ∷ d ∷ rest) =
    let skipped = double_colon_count rest in
    let moved = double_colon_count (d ∷ rest) in
    if c == b':' && d == b':' then suc skipped else moved

-- The two parts of `addr.split("::")`, where there is one double colon.
unfoldable pub split_double_colon : Text → Text × Text
split_double_colon [] = ([], [])
split_double_colon (c ∷ []) = (c ∷ [], [])
split_double_colon (c ∷ d ∷ rest) =
    let (h, t) = split_double_colon (d ∷ rest) in
    if c == b':' && d == b':' then ([], rest) else (c ∷ h, t)

abbrev pub hextets_of : Text → List Text
hextets_of [] = []
hextets_of (c ∷ rest) = split_on b':' (c ∷ rest)

abbrev pub is_hex : ℕ → Bool
is_hex c = is_digit c || leb b'a' c && leb c b'f' || leb b'A' c && leb c b'F'

abbrev pub hex_value : ℕ → ℕ
hex_value c = if is_digit c then c - b'0' else if leb b'a' c then c - b'a' + 10 else c - b'A' + 10

unfoldable pub hex_from : ℕ → Text → ℕ
hex_from n [] = n
hex_from n (c ∷ rest) = hex_from (n * 16 + hex_value c) rest

abbrev pub is_hextet : Text → Bool
is_hextet h = leb 1 (length h) && leb (length h) 4 && all is_hex h

unfoldable pub join_hextets : ℕ → List Text → ℕ
unfolding hex_from
join_hextets value [] = value
join_hextets value (h ∷ hs) = join_hextets (value * 65536 + hex_from 0 h) hs

abbrev pub zeros : ℕ → List Text
zeros zero = []
zeros (suc n) = (b'0' ∷ []) ∷ zeros n

abbrev pub full_hextets : ℕ → List Text → List Text → List Text
full_hextets doubles head tail =
    head ++ ((if doubles == 1 then zeros (8 - (length head + length tail)) else []) ++ tail)

-- The address from the parts before and after the double colon, of which there are `doubles`.
unfoldable pub ipv6_from : ℕ → List Text → List Text → Option ℕ
unfolding join_hextets
ipv6_from doubles head tail = do
  let count = length (head ++ tail)
  require (not (doubles == 0 && not (count == 8)))
  require (not (doubles == 1 && leb 8 count))
  require (leb (length head + length tail) 8)
  require (all is_hextet (head ++ tail))
  require (length (full_hextets doubles head tail) == 8)
  some (join_hextets 0 (full_hextets doubles head tail))

unfoldable pub parse_ipv6 : Text → Option ℕ
unfolding double_colon_count split_double_colon ipv6_from split_on
parse_ipv6 addr = do
  require (not (contains_unit b'.' addr))
  let doubles = double_colon_count addr
  require (leb doubles 1)
  if doubles == 1
      then (let (h, t) = split_double_colon addr in ipv6_from doubles (hextets_of h) (hextets_of t))
      else ipv6_from doubles (split_on b':' addr) []

-- The texts before and after the first slash.
unfoldable pub split_slash : Text → Option (Text × Text)
split_slash [] = none
split_slash (c ∷ rest) = elim (c == b'/') [
  | true ↦ some ([], rest)
  | false ↦ elim (split_slash rest) [ none ↦ none | some (addr, prefix) ↦ some (c ∷ addr, prefix) ]
]

-- The block of an address and a prefix length, if no host bit is set.
unfoldable pub block_of : IpFamily → ℕ → ℕ → Option ParsedCidr
block_of family value prefix_len = do
  require (leb prefix_len (bits_of family))
  let host = 2 ^ (bits_of family - prefix_len)
  require (value % host == 0)
  some
      (record { family = family; start = value; end = value + (host - 1); prefix_len = prefix_len })

unfoldable pub parse_cidr : Text → Option ParsedCidr
unfolding split_slash short_decimal parse_ipv4 parse_ipv6 block_of bits_of
parse_cidr cidr = do
  (addr, prefix) ← split_slash cidr
  prefix_len ← short_decimal prefix
  if contains_unit b':' addr
      then (do value ← parse_ipv6 addr; block_of ipv6 value prefix_len)
      else (do value ← parse_ipv4 addr; block_of ipv4 value prefix_len)

pub record CidrCoverageResult : Type 0 where
  pub malformed : Option Text
  pub covers_internet : Bool
  pub family : Option IpFamily

-- `sort` with the comparison of the first addresses, which is stable.
unfoldable pub insert_block : ParsedCidr → List ParsedCidr → List ParsedCidr
insert_block b [] = b ∷ []
insert_block b (x ∷ xs) =
    let later = x ∷ insert_block b xs in if leb b.start x.start then b ∷ x ∷ xs else later

unfoldable pub sort_blocks : List ParsedCidr → List ParsedCidr
unfolding insert_block
sort_blocks [] = []
sort_blocks (b ∷ bs) = insert_block b (sort_blocks bs)

-- The loop that merges the sorted blocks: the last address that is covered with no gap.
unfoldable pub merge_blocks : ℕ → List ParsedCidr → ℕ
merge_blocks covered [] = covered
merge_blocks covered (next ∷ rest) =
    let merged = merge_blocks (if ltb covered next.end then next.end else covered) rest in
    if ltb (covered + 1) next.start then covered else merged

abbrev pub merge_sorted : List ParsedCidr → Option ℕ
merge_sorted [] = none
merge_sorted (first ∷ rest) = if first.start == 0 then some (merge_blocks first.end rest) else none

abbrev pub reaches : ℕ → Option ℕ → Bool
reaches last none = false
reaches last (some covered) = leb last covered

-- The body of the loop over the families: whether the blocks of one cover its address space.
unfoldable pub family_covered : IpFamily → List ParsedCidr → Bool
unfolding sort_blocks merge_blocks
family_covered family blocks = reaches (max_of family) (merge_sorted (sort_blocks blocks))

abbrev same_family : IpFamily → IpFamily → Bool
same_family ipv4 ipv4 = true
same_family ipv6 ipv6 = true
same_family _ _ = false

unfoldable pub by_family : IpFamily → List ParsedCidr → List ParsedCidr
by_family family [] = []
by_family family (b ∷ bs) =
    let rest = by_family family bs in if same_family b.family family then b ∷ rest else rest

-- The first loop: the blocks, or the first text that is no block.
pub data ParsedAll : Type 0 where
  blocks : List ParsedCidr → ParsedAll
  malformed_at : Text → ParsedAll

abbrev pub add_block : ParsedCidr → ParsedAll → ParsedAll
add_block b (blocks bs) = blocks (b ∷ bs)
add_block b (malformed_at raw) = malformed_at raw

unfoldable pub parse_all : List Text → ParsedAll
unfolding parse_cidr
parse_all [] = blocks []
parse_all (raw ∷ values) =
    let rest = parse_all values in
    elim (parse_cidr raw) [ none ↦ malformed_at raw | some b ↦ add_block b rest ]

unfoldable pub coverage_of : ParsedAll → CidrCoverageResult
unfolding family_covered by_family
coverage_of (malformed_at raw) = record {
  malformed = some raw;
  covers_internet = false;
  family = none;
}
coverage_of (blocks bs) =
    if family_covered ipv4 (by_family ipv4 bs)
    then record { malformed = none; covers_internet = true; family = some ipv4 }
    else if family_covered ipv6 (by_family ipv6 bs)
    then record { malformed = none; covers_internet = true; family = some ipv6 }
    else record { malformed = none; covers_internet = false; family = none }

unfoldable pub analyze_cidr_coverage : List Text → CidrCoverageResult
unfolding parse_all coverage_of
analyze_cidr_coverage values = coverage_of (parse_all values)

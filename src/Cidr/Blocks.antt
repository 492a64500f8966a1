-- ===== src/Cidr/Blocks.antt =====
-- What a parsed block is (packages/k8s-baseline/src/cidr-coverage.ts).
use hulumi.Prelude.{
  ℕ, zero, suc, ◌+◌, ◌-◌, ◌*◌, ◌%◌, ◌^◌, ◌≤◌, ◌<◌, Bool, true, Option, none, some, List, [], ◌∷◌,
  Text, leb, ◌==◌, length, if◌then◌else◌, Bool-cases, Option-cases, ap, ◌≡◌, inl, inr, refl, arith,
  all, split_on, leb→le, and-eq-true, ◌&&◌, ◌++◌,
}
use native.Mathlib.Nat.{pow-suc, pow-le-pow_right, mul_assoc, suc-add, zero-add}
use hulumi.Cidr.{
  IpFamily, ipv4, ipv6, ParsedCidr, bits_of, max_of, is_hex, hex_value, hex_from, is_hextet, zeros,
  full_hextets, double_colon_count, split_double_colon, hextets_of, contains_unit, split_slash,
  ◌>>=◌, octets, short_decimal, parse_ipv4, parse_ipv6, join_hextets, ipv6_from, block_of,
  parse_cidr,
}

pow_add : (a b : ℕ) → 2 ^ (a + b) ≡ 2 ^ a * 2 ^ b
pow_add zero b = rw (zero-add) (omega arith)
pow_add (suc a) b =
    rw (suc-add, pow-suc, pow-suc)
      (omega (arith, ap (λ (t : ℕ). t * 2) (pow_add a b), mul_assoc (2 ^ a) 2 (2 ^ b)))

pow_pos : (n : ℕ) → 0 < 2 ^ n
pow_pos zero = omega arith
pow_pos (suc n) = rw pow-suc (omega (arith, pow_pos n))

-- A number below a * h whose rest by h is 0 leaves room for a whole block of h.
room_for_block : (v a h : ℕ) → v < a * h → v % h ≡ 0 → v + h ≤ a * h
room_for_block v a h lt e = grind arith

-- An aligned block inside the address space of its family.
pub record IsBlock (b : ParsedCidr) : Type 0 where
  pub prefix : b.prefix_len ≤ bits_of b.family
  pub size : b.start + 2 ^ (bits_of b.family - b.prefix_len) ≡ b.end + 1
  pub aligned : b.start % 2 ^ (bits_of b.family - b.prefix_len) ≡ 0
  pub inside : b.end ≤ max_of b.family

room_in_family :
    (bits p v : ℕ)
    → p ≤ bits
    → v < 2 ^ bits
    → v % 2 ^ (bits - p) ≡ 0
    → v + 2 ^ (bits - p) ≤ 2 ^ bits
room_in_family bits p v le lt e =
    let whole : 2 ^ bits ≡ 2 ^ p * 2 ^ (bits - p) =
      rw (← pow_add p (bits - p)) (ap (λ (n : ℕ). 2 ^ n) (omega arith)) in
    rw whole (room_for_block v (2 ^ p) (2 ^ (bits - p)) (omega (arith, whole)) e)

abbrev the_block : IpFamily → ℕ → ℕ → ParsedCidr
the_block family v p = record {
  family = family;
  start = v;
  end = v + (2 ^ (bits_of family - p) - 1);
  prefix_len = p;
}

the_block-IsBlock :
    (family : IpFamily) (v p : ℕ)
    → p ≤ bits_of family
    → v % 2 ^ (bits_of family - p) ≡ 0
    → v < 2 ^ bits_of family
    → IsBlock (the_block family v p)
unfolding max_of
the_block-IsBlock family v p le e lt =
    let room = room_in_family (bits_of family) p v le lt e in
    let one = pow_pos (bits_of family - p) in
    record {
      prefix = le;
      size = omega (arith, one);
      aligned = e;
      inside = omega (arith, room, one);
    }

block_of-IsBlock :
    (family : IpFamily) (v p : ℕ) {b : ParsedCidr}
    → v < 2 ^ bits_of family
    → block_of family v p ≡ some b
    → IsBlock b
unfolding block_of max_of
block_of-IsBlock family v p {b} lt h = elim (Bool-cases (leb p (bits_of family))) [
  | inr long ↦ absurd (ground arith)
  | inl short ↦ elim (Bool-cases (v % 2 ^ (bits_of family - p) == 0)) [
    | inr unaligned ↦ absurd (ground arith)
    | inl aligned ↦
        let same : b ≡ the_block family v p = ground arith in
        rw same (the_block-IsBlock family v p (ground arith) (ground arith) lt)
  ]
]

octets-lt :
    (v : ℕ) (parts : List Text) {r : ℕ} → octets v parts ≡ some r → r < (v + 1) * 256 ^ length parts
unfolding octets
octets-lt v [] h = ground arith
octets-lt v (part ∷ parts) {r} h = elim (Option-cases (short_decimal part)) [
  | inl bad ↦ absurd (ground arith)
  | inr (n, good) ↦ elim (Bool-cases (leb n 255)) [
    | inr big ↦ absurd (ground arith)
    | inl small ↦
        let ih = octets-lt (v * 256 + n) parts {r = r} (ground arith) in
        rw pow-suc (grind (arith, ih, leb→le))
  ]
]

parse_ipv4-lt : (addr : Text) {r : ℕ} → parse_ipv4 addr ≡ some r → r < 2 ^ 32
unfolding parse_ipv4
parse_ipv4-lt addr {r} h = elim (Bool-cases (length (split_on b'.' addr) == 4)) [
  | inr other ↦ absurd (ground arith)
  | inl four ↦
      let bound = octets-lt 0 (split_on b'.' addr) {r = r} (ground arith) in
      let len : length (split_on b'.' addr) ≡ 4 = ground arith in omega (arith, rw len at bound)
]

hex_value-lt : (c : ℕ) → is_hex c ≡ true → hex_value c < 16
hex_value-lt c h = ground arith

hex_from-lt : (n : ℕ) (h : Text) → all is_hex h ≡ true → hex_from n h < (n + 1) * 16 ^ length h
unfolding hex_from
hex_from-lt n [] ok = ground arith
hex_from-lt n (c ∷ h) ok =
    let (first, rest) = and-eq-true (is_hex c) (all is_hex h) ok in
    rw pow-suc (grind (arith, hex_from-lt (n * 16 + hex_value c) h rest, hex_value-lt c first))

is_hextet-lt : (h : Text) → is_hextet h ≡ true → hex_from 0 h < 65536
is_hextet-lt h ok =
    let (size, digits) = and-eq-true (leb 1 (length h) && leb (length h) 4) (all is_hex h) ok in
    let short : length h ≤ 4 = ground arith in
    let more = pow-le-pow_right {n = 16} (omega arith) short in
    omega (arith, hex_from-lt 0 h digits, more)

join_hextets-lt :
    (v : ℕ) (hs : List Text)
    → all is_hextet hs ≡ true
    → join_hextets v hs < (v + 1) * 65536 ^ length hs
unfolding join_hextets
join_hextets-lt v [] ok = ground arith
join_hextets-lt v (h ∷ hs) ok =
    let (first, rest) = and-eq-true (is_hextet h) (all is_hextet hs) ok in
    rw pow-suc
      (grind (arith, join_hextets-lt (v * 65536 + hex_from 0 h) hs rest, is_hextet-lt h first))

all-append :
    (p : Text → Bool) (xs ys : List Text)
    → all p xs ≡ true
    → all p ys ≡ true
    → all p (xs ++ ys) ≡ true
all-append p [] ys h k = k
all-append p (x ∷ xs) ys h k = ground (arith, all-append p xs ys)

all_of_append :
    (p : Text → Bool) (xs ys : List Text)
    → all p (xs ++ ys) ≡ true
    → (all p xs ≡ true) × (all p ys ≡ true)
all_of_append p [] ys h = (refl, h)
all_of_append p (x ∷ xs) ys h = ground (arith, all_of_append p xs ys)

all-zeros : (n : ℕ) → all is_hextet (zeros n) ≡ true
all-zeros zero = refl
all-zeros (suc n) = all-zeros n

all-full_hextets :
    (doubles : ℕ) (head tail : List Text)
    → all is_hextet (head ++ tail) ≡ true
    → all is_hextet (full_hextets doubles head tail) ≡ true
all-full_hextets doubles head tail ok =
    let (h, t) = all_of_append is_hextet head tail ok in
    all-append is_hextet head _ h (
      all-append is_hextet (if doubles == 1 then zeros (8 - (length head + length tail)) else [])
        tail
        (elim (Bool-cases (doubles == 1)) [
          | inl one ↦ rw one (all-zeros (8 - (length head + length tail)))
          | inr other ↦ rw other refl
        ])
        t)

ipv6_from-lt :
    (doubles : ℕ) (head tail : List Text) {r : ℕ}
    → ipv6_from doubles head tail ≡ some r
    → r < 2 ^ 128
unfolding ipv6_from
ipv6_from-lt doubles head tail {r} h = elim (Bool-cases (all is_hextet (head ++ tail))) [
  | inr bad ↦ absurd (ground arith)
  | inl good ↦ elim (Bool-cases (length (full_hextets doubles head tail) == 8)) [
    | inr other ↦ absurd (ground arith)
    | inl eight ↦
        let bound =
          join_hextets-lt 0 (full_hextets doubles head tail)
            (all-full_hextets doubles head tail good) in
        let same : r ≡ join_hextets 0 (full_hextets doubles head tail) = ground arith in
        let len : length (full_hextets doubles head tail) ≡ 8 = ground arith in
        rw same (omega (arith, rw len at bound))
  ]
]

parse_ipv6-lt : (addr : Text) {r : ℕ} → parse_ipv6 addr ≡ some r → r < 2 ^ 128
unfolding parse_ipv6
parse_ipv6-lt addr {r} h = elim (Bool-cases (double_colon_count addr == 1)) [
  | inl one ↦
      ipv6_from-lt (double_colon_count addr) (hextets_of (split_double_colon addr).0)
        (hextets_of (split_double_colon addr).1) {r = r} (ground arith)
  | inr other ↦
      ipv6_from-lt (double_colon_count addr) (split_on b':' addr) [] {r = r} (ground arith)
]

bind-eq-some :
    {A B : Type 0} (m : Option A) (f : A → Option B) {b : B}
    → (m >>= f) ≡ some b
    → (a : A) × (m ≡ some a) × (f a ≡ some b)
bind-eq-some none f h = cc
bind-eq-some (some a) f h = (a, refl, h)

-- A text that parses is an aligned block of 2 ^ (bits - prefix) addresses that lies inside the
-- address space of its family.
pub parse_cidr-IsBlock : (cidr : Text) {b : ParsedCidr} → parse_cidr cidr ≡ some b → IsBlock b
unfolding parse_cidr bits_of
parse_cidr-IsBlock cidr {b} h =
    let (parts, _, h1) = bind-eq-some (split_slash cidr) _ h in
    let (p, _, h2) = bind-eq-some (short_decimal parts.1) _ h1 in
    elim (Bool-cases (contains_unit b':' parts.0)) [
      | inl v6 ↦
          let (v, parsed, h3) = bind-eq-some (parse_ipv6 parts.0) _ (rw v6 at h2) in
          block_of-IsBlock ipv6 v p (parse_ipv6-lt parts.0 parsed) h3
      | inr v4 ↦
          let (v, parsed, h3) = bind-eq-some (parse_ipv4 parts.0) _ (rw v4 at h2) in
          block_of-IsBlock ipv4 v p (parse_ipv4-lt parts.0 parsed) h3
    ]

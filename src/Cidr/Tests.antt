-- ===== src/Cidr/Tests.antt =====
-- Runs of the CIDR coverage analysis, and its theorems at concrete inputs.
use hulumi.Prelude.{ℕ, true, false, none, some, List, [], ◌∷◌, Text, lit, Any, ◌≡◌, ◌↔◌, ◌⊎◌, refl}
use hulumi.Cidr.{
  ipv4, ipv6, ParsedCidr, max_of, parse_cidr, by_family, parse_all, analyze_cidr_coverage,
}
use hulumi.Cidr.Blocks.{IsBlock, parse_cidr-IsBlock}
use hulumi.Cidr.Coverage.{CoversSpace, covers_internet_iff, malformed_sound}

abbrev half : ℕ → ℕ → ParsedCidr
half from to = record { family = ipv4; start = from; end = to; prefix_len = 1 }

abbrev halves : List Text
halves = lit "128.0.0.0/1" ∷ lit "0.0.0.0/1" ∷ []

abbrev half_blocks : List ParsedCidr
half_blocks = half 2147483648 4294967295 ∷ half 0 2147483647 ∷ []

covered :
    ((analyze_cidr_coverage halves).covers_internet ≡ true)
    × ((analyze_cidr_coverage (lit "::/0" ∷ [])).covers_internet ≡ true)
    × ((analyze_cidr_coverage (lit "0.0.0.0/2" ∷ lit "128.0.0.0/1" ∷ [])).covers_internet ≡ false)
    × ((analyze_cidr_coverage (lit "10.0.0.1/8" ∷ [])).malformed ≡ some (lit "10.0.0.1/8"))
unfolding analyze_cidr_coverage max_of
covered = (refl, refl, refl, refl)

covers_internet_iff_example : ((analyze_cidr_coverage halves).covers_internet ≡ true) ↔ (
    CoversSpace ipv4 (by_family ipv4 half_blocks) ⊎ CoversSpace ipv6 (by_family ipv6 half_blocks))
unfolding parse_all
covers_internet_iff_example = covers_internet_iff halves half_blocks refl

malformed_sound_example :
    Any (λ v. (v ≡ lit "10.0.0.1/8") × (parse_cidr v ≡ none)) (lit "10.0.0.1/8" ∷ [])
    × ((analyze_cidr_coverage (lit "10.0.0.1/8" ∷ [])).covers_internet ≡ false)
unfolding analyze_cidr_coverage max_of
malformed_sound_example = malformed_sound (lit "10.0.0.1/8" ∷ []) (lit "10.0.0.1/8") refl

parse_cidr-IsBlock_example : IsBlock (half 2147483648 4294967295)
unfolding parse_cidr
parse_cidr-IsBlock_example =
    parse_cidr-IsBlock (lit "128.0.0.0/1") {b = half 2147483648 4294967295} refl

-- ===== src/Policies/Urn/Tests.antt =====
-- URNs of a child, of a resource beside it and of one with a forged name, and the theorems at them.
use hulumi.Prelude.{true, false, Text, lit, text_contains, ◌≡◌, refl}
use hulumi.Policies.Urn.{
  all_but_last, types_of, is_urn_child_of_component, urns_share_parent_component,
}
use hulumi.Policies.Urn.Children.{is_part, joined, urn_of, is_urn_child_lem, is_urn_child_forged}

abbrev component : Text
component = lit "hulumi:platform:Repository"

abbrev chain : Text
chain = lit "hulumi:platform:Repository$aws:s3/bucketV2:BucketV2"

abbrev own_chain : Text
own_chain = lit "aws:s3/bucketV2:BucketV2"

children :
    (is_urn_child_of_component (urn_of (lit "dev") (lit "app") chain (lit "b")) component ≡ true)
    × (is_urn_child_of_component (urn_of (lit "dev") (lit "app") own_chain chain) component ≡ false)
    × (is_urn_child_of_component
          (urn_of (lit "dev") (lit "app") own_chain (joined chain (lit "b")))
          component
        ≡ true)
unfolding is_urn_child_of_component
children = (refl, refl, refl)

siblings :
    (urns_share_parent_component
        (urn_of (lit "dev") (lit "app") chain (lit "b"))
        (urn_of (lit "dev") (lit "app") chain (lit "c"))
      ≡ true)
    × (urns_share_parent_component
          (urn_of (lit "dev") (lit "app") chain (lit "b"))
          (urn_of (lit "dev") (lit "app") own_chain (lit "c"))
        ≡ false)
unfolding urns_share_parent_component
siblings = (refl, refl)

is_urn_child_lem_example :
    is_urn_child_of_component (urn_of (lit "dev") (lit "app") own_chain chain) component
    ≡ text_contains (all_but_last (types_of own_chain)) component
unfolding is_part
is_urn_child_lem_example =
    is_urn_child_lem component (lit "dev") (lit "app") own_chain chain refl (refl, refl)
      (refl, refl) refl (refl, refl) (refl, refl)

is_urn_child_forged_example :
    is_urn_child_of_component
      (urn_of (lit "dev") (lit "app") own_chain (joined chain (lit "b")))
      component
    ≡ text_contains (all_but_last (types_of chain)) component
unfolding is_part
is_urn_child_forged_example =
    is_urn_child_forged component (lit "dev") (lit "app") own_chain chain (lit "b") refl
      (refl, refl) (refl, refl) refl (refl, refl) (refl, refl) (refl, refl)

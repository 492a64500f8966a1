-- ===== src/NodeLabel/Plan/Application.antt =====
-- What the patches of packages/k8s-baseline/src/trusted-node-label-reconciler-core.ts do to a node
-- that the API server applies them to, as RFC 6902 defines it: the operations one after another,
-- all or none.
use hulumi.Prelude.{
  false, Option, none, some, List, [], ◌∷◌, Text, lit, text_eq, text_eq_iff, any, ◌==◌, ==_iff,
  if◌then◌else◌, All, Bool-cases, ◌≡◌, ◌≢◌, ◌↔◌, inl, inr, refl, ap,
}
use hulumi.NodeLabel.Types.{
  NodeSnapshot, TrustedNodeLabelPolicy, JsonPatchOperation, test, add, remove, label_of, is_value,
}
use hulumi.NodeLabel.Plan.{
  json_pointer_escape, uid_path, version_path, provider_path, label_path, addition_patch,
  removal_patch,
}
use hulumi.NodeLabel.Plan.Patches.{json_pointer_unescape, json_pointer_escape-step}

-- A place of a node that a JSON pointer names.
pub data Place : Type 0 where
  at_uid at_version at_provider : Place
  at_label : (key : Text) → Place

-- A reference token is one step of a pointer if it has no slash.
abbrev label_place : Text → Option Place
unfolding json_pointer_unescape
label_place token =
    if any (λ c. c == b'/') token then none else some (at_label (json_pointer_unescape token))

abbrev after_prefix : Text → Text → Option Place
after_prefix [] token = label_place token
after_prefix (p ∷ prefix) [] = none
after_prefix (p ∷ prefix) (c ∷ path) =
    let rest = after_prefix prefix path in if c == p then rest else none

unfoldable pub place_of : Text → Option Place
unfolding text_eq json_pointer_unescape
place_of path =
    if text_eq path (lit "/metadata/uid")
    then some at_uid
    else if text_eq path (lit "/metadata/resourceVersion")
    then some at_version
    else if text_eq path (lit "/spec/providerID")
    then some at_provider
    else after_prefix (lit "/metadata/labels/") path

abbrev pub content : NodeSnapshot → Place → Option Text
content m at_uid = some m.uid
content m at_version = some m.resource_version
content m at_provider = some m.provider_id
content m (at_label key) = label_of key m.labels

-- The label is given a value, where it stands or at the end.
unfoldable pub set_label : Text → Text → List (Text × Text) → List (Text × Text)
unfolding text_eq
set_label key v [] = (key, v) ∷ []
set_label key v ((k, x) ∷ labels) =
    if text_eq k key then (k, v) ∷ labels else (k, x) ∷ set_label key v labels

unfoldable pub drop_label : Text → List (Text × Text) → List (Text × Text)
unfolding text_eq
drop_label key [] = []
drop_label key ((k, x) ∷ labels) =
    let rest = drop_label key labels in if text_eq k key then rest else (k, x) ∷ rest

abbrev pub labelled : Text → Text → NodeSnapshot → NodeSnapshot
labelled key v m = record m { labels = set_label key v m.labels }

abbrev pub without_label : Text → NodeSnapshot → NodeSnapshot
without_label key m = record m { labels = drop_label key m.labels }

abbrev placed : NodeSnapshot → Text → Place → NodeSnapshot
placed m v at_uid = record m { uid = v }
placed m v at_version = record m { resource_version = v }
placed m v at_provider = record m { provider_id = v }
placed m v (at_label key) = labelled key v m

-- A label can be removed if it is there, and the other places not at all.
abbrev taken : NodeSnapshot → Place → Option Text → Option NodeSnapshot
taken m (at_label key) (some x) = some (without_label key m)
taken m p x = none

abbrev tested : NodeSnapshot → Text → Option Text → Option NodeSnapshot
tested m v x = if is_value x v then some m else none

abbrev at_place : Option Place → (Place → Option NodeSnapshot) → Option NodeSnapshot
at_place none change = none
at_place (some p) change = change p

unfoldable pub apply_operation : JsonPatchOperation → NodeSnapshot → Option NodeSnapshot
unfolding place_of label_of text_eq set_label drop_label
apply_operation (test path v) m = at_place (place_of path) (λ p. tested m v (content m p))
apply_operation (add path v) m = at_place (place_of path) (λ p. some (placed m v p))
apply_operation (remove path) m = at_place (place_of path) (λ p. taken m p (content m p))

abbrev then_apply : Option NodeSnapshot → (NodeSnapshot → Option NodeSnapshot) → Option NodeSnapshot
then_apply none rest = none
then_apply (some m) rest = rest m

unfoldable pub apply_patch : List JsonPatchOperation → NodeSnapshot → Option NodeSnapshot
unfolding apply_operation
apply_patch [] m = some m
apply_patch (op ∷ ops) m = then_apply (apply_operation op m) (apply_patch ops)

no_slash : (s : Text) → All (λ c. c ≢ b'/') s → any (λ c. c == b'/') s ≡ false
no_slash [] h = refl
no_slash (c ∷ s) (other, h) = elim (Bool-cases (c == b'/')) [
  | inl slash ↦ absurd (other ((==_iff c b'/').0 slash))
  | inr plain ↦ rw plain (no_slash s h)
]

place_of-label : (key : Text) → place_of (label_path key) ≡ some (at_label key)
unfolding place_of label_path
place_of-label key =
    let (plain, decoded) = json_pointer_escape-step key in
    rw (no_slash (json_pointer_escape key) plain) (ap (λ k. some (at_label k)) decoded)

some_eq : (x y : Text) → some x ≡ some y → x ≡ y
some_eq x y e = cc

tested_iff :
    (m n : NodeSnapshot) (v : Text) (x : Option Text) (rest : NodeSnapshot → Option NodeSnapshot)
    → (then_apply (tested m v x) rest ≡ some n) ↔ ((x ≡ some v) × (rest m ≡ some n))
tested_iff m n v none rest = (λ e. cc, λ (e, _). cc)
tested_iff m n v (some y) rest = elim (Bool-cases (text_eq y v)) [
  | inl same ↦ (λ e. (ap some ((text_eq_iff y v).0 same), rw same at e), λ (_, e). rw same e)
  | inr other ↦ (
    λ e. let bad = rw other at e in cc,
    λ (e, _). let same = (text_eq_iff y v).1 (some_eq y v e) in cc (same, other),
  )
]

-- A test lets the rest of a patch through where the place has the value.
test_iff :
    (path v : Text) (p : Place) (ops : List JsonPatchOperation) (m n : NodeSnapshot)
    → place_of path ≡ some p
    → (apply_patch (test path v ∷ ops) m ≡ some n)
      ↔ ((content m p ≡ some v) × (apply_patch ops m ≡ some n))
unfolding apply_patch
test_iff path v p ops m n there = rw there (tested_iff m n v (content m p) (apply_patch ops))

module _ (policy : TrustedNodeLabelPolicy) (node m n : NodeSnapshot) where
  -- The tests that both patches begin with.
  identity_iff :
      (ops : List JsonPatchOperation)
      → (apply_patch
            (test uid_path node.uid
              ∷ test version_path node.resource_version
              ∷ test provider_path node.provider_id
              ∷ ops)
            m
          ≡ some n)
        ↔ ((m.uid ≡ node.uid)
            × (m.resource_version ≡ node.resource_version)
            × (m.provider_id ≡ node.provider_id)
            × (apply_patch ops m ≡ some n))
  unfolding place_of uid_path version_path provider_path
  identity_iff ops =
      let u =
        test_iff uid_path node.uid at_uid
          (test version_path node.resource_version ∷ test provider_path node.provider_id ∷ ops) m n
          refl in
      let v =
        test_iff version_path node.resource_version at_version
          (test provider_path node.provider_id ∷ ops) m n refl in
      let p = test_iff provider_path node.provider_id at_provider ops m n refl in
      (
        λ e.
            let (a, e1) = u.0 e in
            let (b, e2) = v.0 e1 in
            let (c, e3) = p.0 e2 in (some_eq _ _ a, some_eq _ _ b, some_eq _ _ c, e3),
        λ (a, b, c, e). u.1 (ap some a, v.1 (ap some b, p.1 (ap some c, e))),
      )

  addition_iff :
      (apply_patch (add (label_path policy.protected_label_key) policy.protected_label_value ∷ []) m
        ≡ some n)
      ↔ (n ≡ labelled policy.protected_label_key policy.protected_label_value m)
  unfolding apply_patch
  addition_iff = rw (place_of-label policy.protected_label_key) (λ e. cc, λ e. cc)

  removal_iff : (apply_patch (remove (label_path policy.protected_label_key) ∷ []) m ≡ some n) ↔ (
      ((y : Text) × (label_of policy.protected_label_key m.labels ≡ some y))
      × (n ≡ without_label policy.protected_label_key m))
  unfolding apply_patch
  removal_iff =
      rw (place_of-label policy.protected_label_key)
        (whole_iff (label_of policy.protected_label_key m.labels))
    where
      whole_iff :
          (x : Option Text)
          → (then_apply (taken m (at_label policy.protected_label_key) x) (λ k. some k) ≡ some n)
            ↔ (((y : Text) × (x ≡ some y)) × (n ≡ without_label policy.protected_label_key m))
      whole_iff none = (λ e. cc, λ ((y, e), _). cc)
      whole_iff (some y) = (λ e. ((y, refl), cc), λ (_, e). cc)

  -- The patch that adds the label.
  pub addition_patch_iff : (apply_patch (addition_patch policy node) m ≡ some n) ↔ (
      (m.uid ≡ node.uid)
      × (m.resource_version ≡ node.resource_version)
      × (m.provider_id ≡ node.provider_id)
      × (n ≡ labelled policy.protected_label_key policy.protected_label_value m))
  addition_patch_iff =
      let whole =
        identity_iff
          (add (label_path policy.protected_label_key) policy.protected_label_value ∷ []) in
      (
        λ e. let (a, b, c, rest) = whole.0 e in (a, b, c, addition_iff.0 rest),
        λ (a, b, c, e). whole.1 (a, b, c, addition_iff.1 e),
      )

  pub removal_patch_iff : (apply_patch (removal_patch policy node) m ≡ some n) ↔ (
      (m.uid ≡ node.uid)
      × (m.resource_version ≡ node.resource_version)
      × (m.provider_id ≡ node.provider_id)
      × (label_of policy.protected_label_key m.labels ≡ some policy.protected_label_value)
      × (n ≡ without_label policy.protected_label_key m))
  removal_patch_iff =
      let key = policy.protected_label_key in
      let whole =
        identity_iff
          (test (label_path key) policy.protected_label_value ∷ remove (label_path key) ∷ []) in
      let label =
        test_iff (label_path key) policy.protected_label_value (at_label key)
          (remove (label_path key) ∷ []) m n (place_of-label key) in
      (
        λ e.
            let (a, b, c, e1) = whole.0 e in
            let (held, e2) = label.0 e1 in (a, b, c, held, (removal_iff.0 e2).1),
        λ (a, b, c, held, e).
            whole.1
              (a, b, c, label.1 (held, removal_iff.1 ((policy.protected_label_value, held), e))),
      )

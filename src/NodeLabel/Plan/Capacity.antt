-- ===== src/NodeLabel/Plan/Capacity.antt =====
-- `classifyNodeGroupCapacity` of
-- packages/k8s-baseline/src/trusted-node-label-reconciler-core.ts.
use hulumi.Prelude.{ℕ, ◌≤◌, ◌<◌, ◌≡◌, ◌↔◌, arith}
use hulumi.Prelude.Int.{pos}
use hulumi.NodeLabel.Types.{safe}
use hulumi.NodeLabel.Plan.{
  CapacityState, invalid, zero_capacity, awaiting_nodes, reconciling, ready,
  classify_node_group_capacity,
}

-- The numbers of desired and of observed nodes that each state stands for.
abbrev pub Describes : CapacityState → ℕ → ℕ → Type 0
Describes invalid d o = ⊥
Describes zero_capacity d o = (d ≡ 0) × (o ≡ 0)
Describes awaiting_nodes d o = (0 < d) × (o ≡ 0)
Describes reconciling d o = (0 < o) × (o < d)
Describes ready d o = (0 < o) × (d ≤ o)

-- On two counts the state is the one that describes them.
pub capacity_iff :
    (d o : ℕ) (s : CapacityState)
    → (classify_node_group_capacity (safe (pos d)) (safe (pos o)) ≡ s) ↔ Describes s d o
unfolding classify_node_group_capacity
capacity_iff d o invalid = ground arith
capacity_iff d o zero_capacity = ground arith
capacity_iff d o awaiting_nodes = ground arith
capacity_iff d o reconciling = ground arith
capacity_iff d o ready = ground arith

-- ===== src/NodeLabel/Controller/Loop.antt =====
-- `runTrustedNodeLabelController` of
-- packages/k8s-baseline/src/trusted-node-label-controller.ts, the loop that an abort signal ends.
use hulumi.Prelude.{
  ℕ, zero, suc, ◌<◌, Bool, true, false, Option, none, some, List, [], ◌∷◌, Text, ◌≡◌, refl, ap, ◌∙◌,
  if◌then◌else◌, arith,
}
use mathlib.Core.Option
use hulumi.NodeLabel.Types.{TrustedNodeLabelPolicy}
use hulumi.NodeLabel.Controller.Adapters.{Dependencies, TrustedNodeLabelCycleResult}
use hulumi.NodeLabel.Controller.Cycle.{run_trusted_node_label_controller_cycle}

pub record TrustedNodeLabelControllerConfig : Type 0 where
  pub policy : TrustedNodeLabelPolicy
  pub reconcile_interval_ms : ℕ

-- One turn of the loop: what the adapters answer, and whether the signal is aborted before the
-- cycle and after it.
pub record Turn : Type 0 where
  pub dependencies : Dependencies
  pub aborted_before : Bool
  pub aborted_after : Bool

pub data LoopStep : Type 0 where
  ran : TrustedNodeLabelCycleResult → LoopStep
  slept : (milliseconds : ℕ) → LoopStep

-- `if (!signal.aborted) await sleep(...)`, and the later steps.
abbrev pub sleep_then : Bool → ℕ → List LoopStep → List LoopStep
sleep_then true ms later = later
sleep_then false ms later = slept ms ∷ later

abbrev pub cycle_at :
    (Text → Text) → TrustedNodeLabelControllerConfig → Turn → TrustedNodeLabelCycleResult
cycle_at node_ref config turn =
    run_trusted_node_label_controller_cycle node_ref config.policy turn.dependencies

-- The steps of the loop from the n-th turn on, `none` where the fuel does not last.
unfoldable pub run_trusted_node_label_controller :
    (Text → Text)
    → TrustedNodeLabelControllerConfig
    → (ℕ → Turn)
    → (fuel n : ℕ) → Option (List LoopStep)
unfolding run_trusted_node_label_controller_cycle
run_trusted_node_label_controller node_ref config turns zero n = none
run_trusted_node_label_controller node_ref config turns (suc fuel) n =
    let rest = run_trusted_node_label_controller node_ref config turns fuel (suc n) in
    if (turns n).aborted_before
    then some []
    else Option.map
        (λ later.
          ran (cycle_at node_ref config (turns n))
          ∷ sleep_then (turns n).aborted_after config.reconcile_interval_ms later)
        rest

-- The cycles of some steps.
abbrev pub cycles_of : List LoopStep → List TrustedNodeLabelCycleResult
cycles_of [] = []
cycles_of (ran r ∷ steps) = r ∷ cycles_of steps
cycles_of (slept ms ∷ steps) = cycles_of steps

-- The cycles of k turns from the n-th on.
abbrev pub cycles_at :
    (Text → Text)
    → TrustedNodeLabelControllerConfig
    → (ℕ → Turn)
    → (k n : ℕ) → List TrustedNodeLabelCycleResult
cycles_at node_ref config turns zero n = []
cycles_at node_ref config turns (suc k) n =
    cycle_at node_ref config (turns n) ∷ cycles_at node_ref config turns k (suc n)

-- The signal is first aborted before the cycle of the k-th turn after the n-th.
abbrev pub FirstAbort : (ℕ → Turn) → (k n : ℕ) → Type 0
FirstAbort turns zero n = (turns n).aborted_before ≡ true
FirstAbort turns (suc k) n = ((turns n).aborted_before ≡ false) × FirstAbort turns k (suc n)

cycles_of-sleep_then :
    (aborted : Bool) (ms : ℕ) (later : List LoopStep)
    → cycles_of (sleep_then aborted ms later) ≡ cycles_of later
cycles_of-sleep_then true ms later = refl
cycles_of-sleep_then false ms later = refl

-- When the signal is first aborted at the k-th turn, the loop ends after the cycles of the k turns
-- before it, in order, and k + 1 units of fuel are enough.
pub run_trusted_node_label_controller_ends :
    (node_ref : Text → Text) (config : TrustedNodeLabelControllerConfig) (turns : ℕ → Turn)
    (k n fuel : ℕ)
    → FirstAbort turns k n
    → k < fuel
    → (steps : List LoopStep) × (run_trusted_node_label_controller node_ref config turns fuel n
        ≡ some steps)
      × (cycles_of steps ≡ cycles_at node_ref config turns k n)
unfolding run_trusted_node_label_controller
run_trusted_node_label_controller_ends node_ref config turns k n zero first h = absurd (omega arith)
run_trusted_node_label_controller_ends node_ref config turns zero n (suc fuel) first h =
    ([], rw first refl, refl)
run_trusted_node_label_controller_ends node_ref config turns (suc k) n (suc fuel) (go, first) h =
    let (later, e, c) =
      run_trusted_node_label_controller_ends node_ref config turns k (suc n) fuel first
        (omega arith) in
    (
      ran (cycle_at node_ref config (turns n))
          ∷ sleep_then (turns n).aborted_after config.reconcile_interval_ms later,
      rw (go, e) refl,
      ap (λ l. cycle_at node_ref config (turns n) ∷ l)
          (cycles_of-sleep_then (turns n).aborted_after config.reconcile_interval_ms later ∙ c),
    )

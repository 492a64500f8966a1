-- ===== src/Reconciler/Interleaved/Exclusion.antt =====
-- The locks of packages/drift/src/reconciler.ts keep executions on the same target apart.
use hulumi.Prelude.{
  false, List, [], ◌∷◌, ◌++◌, map, Text, text_eq, text_eq_iff, text_contains, All, AllDistinct,
  Bool-cases, or-eq-false, ◌≡◌, ◌≢◌, refl, sym, ap, subst, ◌∙◌, inl, inr,
}
use hulumi.Reconciler.Execution.{remove_lock}
use hulumi.Reconciler.Interleaved.{
  RunningExecution, SharedState, advanced, ExecuteStep, store, begin_execution, act, end_execution,
  Reachable, at_start, later,
}

abbrev pub keys : List RunningExecution → List Text
keys running = map (λ e. e.lock_key) running

-- The locks are the keys of the running executions, which are distinct.
pub record IsExclusive (s : SharedState) : Type 0 where
  pub locks_match : s.active_execution_locks ≡ keys s.running
  pub distinct : AllDistinct (keys s.running)

not_contained :
    (locks : List Text) (k : Text) → text_contains locks k ≡ false → All (λ x. x ≢ k) locks
unfolding text_contains
not_contained [] k h = tt
not_contained (l ∷ locks) k h =
    let (other, more) = or-eq-false (text_eq l k) (text_contains locks k) h in
    ((λ e. cc (other, (text_eq_iff l k).1 e)), not_contained locks k more)

keys-append :
    (before : List RunningExecution) (e : RunningExecution) (after : List RunningExecution)
    → keys (before ++ (e ∷ after)) ≡ keys before ++ (e.lock_key ∷ keys after)
keys-append [] e after = refl
keys-append (x ∷ before) e after = ap (λ ks. x.lock_key ∷ ks) (keys-append before e after)

keys-append_two :
    (before after : List RunningExecution) → keys (before ++ after) ≡ keys before ++ keys after
keys-append_two [] after = refl
keys-append_two (x ∷ before) after = ap (λ ks. x.lock_key ∷ ks) (keys-append_two before after)

All-drop :
    (P : Text → Type 0) (ks : List Text) (k : Text) (ls : List Text)
    → All P (ks ++ (k ∷ ls))
    → All P (ks ++ ls)
All-drop P [] k ls (p, h) = h
All-drop P (x ∷ ks) k ls (p, h) = (p, All-drop P ks k ls h)

AllDistinct-drop :
    (ks : List Text) (k : Text) (ls : List Text)
    → AllDistinct (ks ++ (k ∷ ls))
    → AllDistinct (ks ++ ls)
AllDistinct-drop [] k ls (_, h) = h
AllDistinct-drop (x ∷ ks) k ls (d, h) =
    (All-drop (λ y. y ≢ x) ks k ls d, AllDistinct-drop ks k ls h)

remove_lock-absent : (k : Text) (ls : List Text) → All (λ x. x ≢ k) ls → remove_lock k ls ≡ ls
unfolding remove_lock
remove_lock-absent k [] h = refl
remove_lock-absent k (l ∷ ls) (other, h) = elim (Bool-cases (text_eq l k)) [
  | inl same ↦ absurd (other ((text_eq_iff l k).0 same))
  | inr ne ↦ rw ne (ap (λ t. l ∷ t) (remove_lock-absent k ls h))
]

All-at_middle :
    (P : Text → Type 0) (ks : List Text) (k : Text) (ls : List Text) → All P (ks ++ (k ∷ ls)) → P k
All-at_middle P [] k ls (p, h) = p
All-at_middle P (x ∷ ks) k ls (p, h) = All-at_middle P ks k ls h

remove_lock-middle :
    (ks : List Text) (k : Text) (ls : List Text)
    → AllDistinct (ks ++ (k ∷ ls))
    → remove_lock k (ks ++ (k ∷ ls)) ≡ ks ++ ls
unfolding remove_lock
remove_lock-middle [] k ls (d, h) = rw ((text_eq_iff k k).1 refl) (remove_lock-absent k ls d)
remove_lock-middle (x ∷ ks) k ls (d, h) = elim (Bool-cases (text_eq x k)) [
  | inl same ↦ absurd (All-at_middle (λ y. y ≢ x) ks k ls d (sym ((text_eq_iff x k).0 same)))
  | inr ne ↦ rw ne (ap (λ t. x ∷ t) (remove_lock-middle ks k ls h))
]

step-IsExclusive : {s t : SharedState} → IsExclusive s → ExecuteStep s t → IsExclusive t
step-IsExclusive h (store reconciler token actions) = record {
  locks_match = h.locks_match;
  distinct = h.distinct;
}
step-IsExclusive h (begin_execution reconciler p options actions _ _ _ _ fresh) = record {
  locks_match = ap (λ ks. p.lock_key ∷ ks) h.locks_match;
  distinct = (
    subst (All (λ x. x ≢ p.lock_key)) h.locks_match (not_contained _ p.lock_key fresh),
    h.distinct,
  );
}
step-IsExclusive h (act executors before after e a rest where_ left) =
    let same =
      ap keys where_
      ∙ keys-append before e after
      ∙ sym (keys-append before (advanced executors e a rest) after) in
    record { locks_match = h.locks_match ∙ same; distinct = subst AllDistinct same h.distinct }
step-IsExclusive h (end_execution before after e where_ done) =
    let split = ap keys where_ ∙ keys-append before e after in
    let apart = subst AllDistinct split h.distinct in
    let joined = keys-append_two before after in
    record {
      locks_match =
          ap (remove_lock e.lock_key) (h.locks_match ∙ split)
          ∙ remove_lock-middle (keys before) e.lock_key (keys after) apart
          ∙ sym joined;
      distinct =
          subst AllDistinct (sym joined)
            (AllDistinct-drop (keys before) e.lock_key (keys after) apart);
    }

-- However calls of `execute` interleave, the locks are exactly the keys of the calls that are
-- running, and no two of these have the same key.
pub reachable-IsExclusive : (s : SharedState) → Reachable s → IsExclusive s
reachable-IsExclusive _ at_start = record { locks_match = refl; distinct = tt }
reachable-IsExclusive _ (later r step) = step-IsExclusive (reachable-IsExclusive _ r) step

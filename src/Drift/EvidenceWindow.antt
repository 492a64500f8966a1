-- ===== src/Drift/EvidenceWindow.antt =====
-- packages/drift/src/evidence-window.ts. `Date.parse` is an argument: the milliseconds of a
-- timestamp, `none` for one that is no date.
use hulumi.Prelude.{
  ℕ, ◌-◌, ◌≤◌, Bool, true, false, not, Option, some, [], ◌∷◌, Text, trim, ltb, leb, is_some,
  Option-cases, inl, inr, if◌then◌else◌, ◌≡◌, ◌↔◌, arith,
}
use hulumi.Prelude.Result.{Result, ok, err, ◌>>◌, throw_if}
use hulumi.Drift.Types.{EvidenceWindow}

pub data WindowError : Type 0 where
  after_invalid before_invalid after_later_than_before now_not_finite : WindowError

abbrev pub default_evidence_window_ms : ℕ
default_evidence_window_ms = 86400000

-- The last instant of the supported date range.
abbrev max_time_ms : ℕ
max_time_ms = 8640000000000000

-- The two instants of the default window, for a clock that does not stand before 1970-01-02.
unfoldable pub default_evidence_window : ℕ → Result WindowError (ℕ × ℕ)
default_evidence_window now =
    if leb now max_time_ms then ok (now - default_evidence_window_ms, now) else err now_not_finite

abbrev pub is_empty : Text → Bool
is_empty [] = true
is_empty (_ ∷ _) = false

module _ (date_parse : Text → Option ℕ) where
  unfoldable pub is_finite_timestamp : Text → Bool
  is_finite_timestamp value = if is_empty (trim value) then false else is_some (date_parse value)

  abbrev later : Option ℕ → Option ℕ → Bool
  later (some a) (some b) = ltb b a
  later _ _ = false

  unfoldable pub validate_evidence_window : EvidenceWindow → Result WindowError EvidenceWindow
  unfolding is_finite_timestamp
  validate_evidence_window w = do
    throw_if (not (is_finite_timestamp w.after)) after_invalid
    throw_if (not (is_finite_timestamp w.before)) before_invalid
    throw_if (later (date_parse w.after) (date_parse w.before)) after_later_than_before
    ok w

-- Both texts are dates that are not blank, and the lower bound is not later than the upper one.
abbrev pub IsWindow : (Text → Option ℕ) → EvidenceWindow → Type 0
IsWindow date_parse w =
    (a : ℕ) × (b : ℕ) × (date_parse w.after ≡ some a)
    × (date_parse w.before ≡ some b)
    × (is_empty (trim w.after) ≡ false)
    × (is_empty (trim w.before) ≡ false)
    × (a ≤ b)

validate-IsWindow :
    (date_parse : Text → Option ℕ) (w w' : EvidenceWindow)
    → validate_evidence_window date_parse w ≡ ok w'
    → IsWindow date_parse w × (w' ≡ w)
unfolding validate_evidence_window
validate-IsWindow date_parse w w' h = elim (Option-cases (date_parse w.after)) [
  | inl p ↦ absurd (ground arith)
  | inr (a, p) ↦ elim (Option-cases (date_parse w.before)) [
    | inl q ↦ absurd (ground arith)
    | inr (b, q) ↦ ((a, b, p, q, ground arith, ground arith, ground arith), ground arith)
  ]
]

IsWindow-validate :
    (date_parse : Text → Option ℕ) (w : EvidenceWindow)
    → IsWindow date_parse w
    → validate_evidence_window date_parse w ≡ ok w
unfolding validate_evidence_window
IsWindow-validate date_parse w (a, b, p, q, x, y, le) = ground arith

-- A window passes the check exactly when both its texts are dates that are not blank and the lower
-- bound is not later than the upper one; it is then the caller's own, unchanged.
pub validate_evidence_window_iff :
    (date_parse : Text → Option ℕ) (w w' : EvidenceWindow)
    → (validate_evidence_window date_parse w ≡ ok w') ↔ (IsWindow date_parse w × (w' ≡ w))
validate_evidence_window_iff date_parse w w' =
    (validate-IsWindow date_parse w w', λ (h, e). rw e (IsWindow-validate date_parse w h))

-- ===== src/Drift/Cache/Codec.antt =====
-- A codec for the envelopes of packages/drift/src/cache.ts that keeps the law of `JsonCodec`, for
-- the runs at concrete inputs. It writes a text of numbers where the source writes JSON.
use hulumi.Prelude.{
  ℕ, zero, suc, ◌==◌, Bool, true, false, Option, none, some, List, [], ◌∷◌, ◌++◌, ◌∙◌, Text, length,
  if◌then◌else◌, ◌≡◌, refl, sym, ap,
}
use mathlib.Core.List.{append-nil, append_assoc}
use hulumi.Drift.Types.{DriftSource, Confidence, RemediationHint, Raw, Evidence, DriftVerdict}
use hulumi.Drift.Cache.{CacheEnvelope, Parsed, not_json, envelope, JsonCodec}

-- A prefix code: what was encoded is decoded again before any rest.
record Code (A : Type 0) : Type 0 where
  encode : A → Text
  decode : Text → Option (A × Text)
  decode-encode : (a : A) (rest : Text) → decode (encode a ++ rest) ≡ some (a, rest)

abbrev decode_number : Text → Option (ℕ × Text)
decode_number [] = none
decode_number (n ∷ rest) = some (n, rest)

abbrev number_code : Code ℕ
number_code = record {
  encode = λ n. n ∷ [];
  decode = decode_number;
  decode-encode = λ n rest. refl;
}

-- The code of a type whose values another type's values stand for.
module _ {A B : Type 0} (c : Code B) (to : A → B) (from : B → A)
    (from-to : (a : A) → from (to a) ≡ a) where
  abbrev as_value : Option (B × Text) → Option (A × Text)
  as_value none = none
  as_value (some (b, rest)) = some (from b, rest)

  abbrev retract_code : Code A
  retract_code = record {
    encode = λ a. c.encode (to a);
    decode = λ t. as_value (c.decode t);
    decode-encode =
        λ a rest. ap as_value (c.decode-encode (to a) rest) ∙ ap (λ x. some (x, rest)) (from-to a);
  }

module _ {A B : Type 0} (c : Code A) (d : Code B) where
  abbrev with_first : A → Option (B × Text) → Option ((A × B) × Text)
  with_first a none = none
  with_first a (some (b, rest)) = some ((a, b), rest)

  abbrev then_second : Option (A × Text) → Option ((A × B) × Text)
  then_second none = none
  then_second (some (a, rest)) = with_first a (d.decode rest)

  abbrev pair_code : Code (A × B)
  pair_code = record {
    encode = λ p. c.encode p.0 ++ d.encode p.1;
    decode = λ t. then_second (c.decode t);
    decode-encode = λ p rest.
        ap (λ t. then_second (c.decode t)) (append_assoc (c.encode p.0) (d.encode p.1) rest)
        ∙ ap then_second (c.decode-encode p.0 (d.encode p.1 ++ rest))
        ∙ ap (with_first p.0) (d.decode-encode p.1 rest);
  }

module _ {A : Type 0} (c : Code A) where
  encode_all : List A → Text
  encode_all [] = []
  encode_all (x ∷ xs) = c.encode x ++ encode_all xs

  abbrev with_head : A → Option (List A × Text) → Option (List A × Text)
  with_head a none = none
  with_head a (some (as', rest)) = some (a ∷ as', rest)

  decode_many : ℕ → Text → Option (List A × Text)
  decode_many zero t = some ([], t)
  decode_many (suc n) t = elim (c.decode t) [
    | none ↦ none
    | some (a, rest) ↦ with_head a (decode_many n rest)
  ]

  decode_many-encode_all :
      (xs : List A) (rest : Text)
      → decode_many (length xs) (encode_all xs ++ rest) ≡ some (xs, rest)
  unfolding encode_all decode_many
  decode_many-encode_all [] rest = refl
  decode_many-encode_all (x ∷ xs) rest =
      rw
        (
          append_assoc (c.encode x) (encode_all xs) rest,
          c.decode-encode x (encode_all xs ++ rest),
          decode_many-encode_all xs rest,
        )
        refl

  decode_list : Text → Option (List A × Text)
  unfolding decode_many
  decode_list [] = none
  decode_list (n ∷ t) = decode_many n t

  list_code : Code (List A)
  unfolding decode_list
  list_code = record {
    encode = λ xs. length xs ∷ encode_all xs;
    decode = decode_list;
    decode-encode = decode_many-encode_all;
  }

text_code : Code Text
text_code = list_code number_code

module _ {A : Type 0} (c : Code A) where
  option_code : Code (Option A)
  option_code = retract_code (list_code c) to from from-to
    where
      to : Option A → List A
      to none = []
      to (some a) = a ∷ []

      from : List A → Option A
      from [] = none
      from (a ∷ _) = some a

      from-to : (o : Option A) → from (to o) ≡ o
      from-to none = refl
      from-to (some a) = refl

bool_code : Code Bool
bool_code = retract_code number_code to (λ n. n == 1) from-to
  where
    to : Bool → ℕ
    to true = 1
    to false = 0

    from-to : (b : Bool) → (to b == 1) ≡ b
    from-to true = refl
    from-to false = refl

source_code : Code DriftSource
source_code = retract_code number_code to from from-to
  where
    to : DriftSource → ℕ
    to DriftSource.none = 0
    to DriftSource.provider_api_churn = 1
    to DriftSource.console_break_glass = 2
    to DriftSource.genuine_iac_drift = 3
    to DriftSource.mixed = 4
    to DriftSource.unknown = 5

    from : ℕ → DriftSource
    from n =
        if n == 0
        then DriftSource.none
        else if n == 1
        then DriftSource.provider_api_churn
        else if n == 2
        then DriftSource.console_break_glass
        else if n == 3
        then DriftSource.genuine_iac_drift
        else if n == 4
        then DriftSource.mixed
        else DriftSource.unknown

    from-to : (s : DriftSource) → from (to s) ≡ s
    from-to DriftSource.none = refl
    from-to DriftSource.provider_api_churn = refl
    from-to DriftSource.console_break_glass = refl
    from-to DriftSource.genuine_iac_drift = refl
    from-to DriftSource.mixed = refl
    from-to DriftSource.unknown = refl

confidence_code : Code Confidence
confidence_code = retract_code number_code to from from-to
  where
    to : Confidence → ℕ
    to Confidence.none = 0
    to Confidence.low = 1
    to Confidence.medium = 2
    to Confidence.high = 3

    from : ℕ → Confidence
    from n =
        if n == 0
        then Confidence.none
        else if n == 1
        then Confidence.low
        else if n == 2
        then Confidence.medium
        else Confidence.high

    from-to : (c : Confidence) → from (to c) ≡ c
    from-to Confidence.none = refl
    from-to Confidence.low = refl
    from-to Confidence.medium = refl
    from-to Confidence.high = refl

-- The kind, the number and the two texts of a payload.
raw_code : Code Raw
raw_code =
    retract_code (pair_code number_code (pair_code number_code (pair_code text_code text_code))) to
      from from-to
  where
    to : Raw → ℕ × (ℕ × (Text × Text))
    to Raw.empty = (0, (0, ([], [])))
    to (Raw.opaque t) = (1, (0, (t, [])))
    to (Raw.adapter_rejected a r) = (2, (0, (a, r)))
    to (Raw.probe_failure n m) = (3, (n, (m, [])))

    from : ℕ × (ℕ × (Text × Text)) → Raw
    from (kind, (n, (t, u))) =
        if kind == 0
        then Raw.empty
        else if kind == 1
        then Raw.opaque t
        else if kind == 2
        then Raw.adapter_rejected t u
        else Raw.probe_failure n t

    from-to : (r : Raw) → from (to r) ≡ r
    from-to Raw.empty = refl
    from-to (Raw.opaque t) = refl
    from-to (Raw.adapter_rejected a r) = refl
    from-to (Raw.probe_failure n m) = refl

evidence_code : Code Evidence
evidence_code =
    retract_code (pair_code (pair_code text_code text_code) (pair_code raw_code number_code))
      (λ e. ((e.adapter, e.signal_kind), (e.raw, e.timestamp)))
      (λ t. record { adapter = t.0.0; signal_kind = t.0.1; raw = t.1.0; timestamp = t.1.1 })
      (λ e. refl)

hint_code : Code RemediationHint
hint_code =
    retract_code (pair_code text_code (option_code text_code)) (λ h. (h.action, h.doc))
      (λ t. record { action = t.0; doc = t.1 }) (λ h. refl)

verdict_code : Code DriftVerdict
verdict_code =
    retract_code
      (pair_code (pair_code text_code (pair_code source_code confidence_code)) (
        pair_code (pair_code (list_code evidence_code) (option_code hint_code))
          (pair_code (option_code bool_code) (option_code (list_code text_code)))))
      (λ v. (
        (v.resource, (v.source, v.confidence)),
        ((v.evidence, v.recommendation), (v.tier_degraded, v.feature_not_licensed)),
      ))
      (λ t. record {
        resource = t.0.0;
        source = t.0.1.0;
        confidence = t.0.1.1;
        evidence = t.1.0.0;
        recommendation = t.1.0.1;
        tier_degraded = t.1.1.0;
        feature_not_licensed = t.1.1.1;
      })
      (λ v. refl)

envelope_code : Code CacheEnvelope
envelope_code =
    retract_code
      (pair_code (pair_code number_code (option_code number_code))
        (pair_code verdict_code (option_code (list_code (pair_code text_code number_code)))))
      (λ e. ((e.schema_version, e.written_at), (e.verdict, e.github_webhook_cache)))
      (λ t. record {
        schema_version = t.0.0;
        written_at = t.0.1;
        verdict = t.1.0;
        github_webhook_cache = t.1.1;
      })
      (λ e. refl)

abbrev as_parsed : Option (CacheEnvelope × Text) → Parsed
as_parsed none = not_json
as_parsed (some (e, rest)) = envelope e

pub number_codec : JsonCodec
number_codec = record {
  parse = λ t. as_parsed (envelope_code.decode t);
  stringify = λ e. envelope_code.encode e;
  parse-stringify = λ e.
      ap (λ t. as_parsed (envelope_code.decode t)) (sym (append-nil (envelope_code.encode e)))
      ∙ ap as_parsed (envelope_code.decode-encode e []);
}

-- ===== src/Publishing/Contract/Laws.antt =====
-- What an outcome that passed the validation satisfies, and what an exception can become.
use zernflow.Base.{
  ℕ, zero, suc, String, ◌&&◌, ◌≤◌, ◌<◌, ◌≡◌, ◌≢◌, refl, ap, inl, inr, Bool, true, false, not,
  Option, none, some, List, [], ◌∷◌, arith, length, length-take-le, All, leb, ◌==◌, Bool-cases,
  Option-cases, if◌then◌else◌,
}
use zernflow.Base.Json.{
  Text, Json, str, arr, Fields, items_of, Items, nil, cons, starts_with, codes, get, fields_of,
}
use zernflow.Base.Int.{ℤ}
use zernflow.Base.Result.{Result, ok, err}
use zernflow.Tasks.Errors.{ErrorClass, transient, internal, unknown_outcome, Thrown}
use zernflow.Publishing.Contract.{
  PublishOutcome, published, accepted, partial, failed, unknown, PublishPart, str_within,
  https_or_null, sanitize_parts, retry_after, parts_given, validate_outcome, outcome_from_error,
  settle, Reply, threw, answered, validate_accepted, validate_fields, failed_of, published_of,
  partial_of, unknown_of, or_text, part_status, PartStatus, part_index, as_text, slice,
}

abbrev Within : ℕ → Option Text → Type 0
Within most none = Unit
Within most (some t) = (t ≢ []) × (length t ≤ most)

abbrev IsHttps : Option Text → Type 0
IsHttps none = Unit
IsHttps (some t) = (starts_with t (codes "https://") ≡ true) × (length t ≤ 2000)

str_within-Within : (v : Option Json) (most : ℕ) → Within most (str_within v most)
unfolding str_within
str_within-Within none most = tt
str_within-Within (some (str x)) most =
    elim (Bool-cases (not (length x == 0) && leb (length x) most)) [
      | inl fits ↦ rw fits ((λ e. ground (arith, ap length e)), ground arith)
      | inr other ↦ rw other tt
    ]
str_within-Within (some _) most = tt

https_or_null-IsHttps : (v : Option Json) → IsHttps (https_or_null v)
unfolding https_or_null
https_or_null-IsHttps none = tt
https_or_null-IsHttps (some (str u)) =
    elim (Bool-cases (starts_with u (codes "https://") && leb (length u) 2000)) [
      | inl fits ↦ rw fits (ground arith, ground arith)
      | inr other ↦ rw other tt
    ]
https_or_null-IsHttps (some _) = tt

abbrev Fits : Text → Type 0
Fits t = length t ≤ 1000

or_text-Fits : (o : Option Text) (s : String) → Within 1000 o → Fits (codes s) → Fits (or_text o s)
or_text-Fits none s h k = k
or_text-Fits (some t) s h k = h.1

sanitize_parts-length : (left i : ℕ) (items : Items) → length (sanitize_parts left i items) ≤ left
unfolding sanitize_parts
sanitize_parts-length zero i items = omega arith
sanitize_parts-length (suc left) i nil = omega arith
sanitize_parts-length (suc left) i (cons p items) =
    let ih = sanitize_parts-length left (suc i) items in
    elim (Option-cases (part_status (get "status" (fields_of p)))) [
      | inl none' ↦ rw (none', sanitize_parts) (omega arith)
      | inr (s, some') ↦ rw (some', sanitize_parts) (omega arith)
    ]

abbrev IsDelay : Option ℕ → Type 0
IsDelay none = Unit
IsDelay (some ms) = (0 < ms) × (ms ≤ 21_600_000)

retry_after-IsDelay : (v : Option Json) → IsDelay (retry_after v)
unfolding retry_after
retry_after-IsDelay v = ground arith

abbrev AtMost : ℕ → Option Text → Type 0
AtMost most none = Unit
AtMost most (some t) = length t ≤ most

slice-AtMost : (o : Option Text) (n : ℕ) → AtMost n (slice o n)
slice-AtMost none n = tt
slice-AtMost (some t) n = length-take-le n t

-- A part with texts of at most 300 code units and an https link.
abbrev IsPart : PublishPart → Type 0
IsPart p = AtMost 300 p.external_ref × IsHttps p.external_url × AtMost 300 p.message

sanitize_parts-IsPart : (left i : ℕ) (items : Items) → All IsPart (sanitize_parts left i items)
unfolding sanitize_parts
sanitize_parts-IsPart zero i items = tt
sanitize_parts-IsPart (suc left) i nil = tt
sanitize_parts-IsPart (suc left) i (cons p items) =
    of_status (part_status (get "status" (fields_of p))) (sanitize_parts-IsPart left (suc i) items)
  where
    of_status :
        (x : Option PartStatus)
        → All IsPart (sanitize_parts left (suc i) items)
        → All IsPart (elim x [
          | none ↦ sanitize_parts left (suc i) items
          | some status ↦
              record {
                index = part_index (get "index" (fields_of p)) i;
                status = status;
                external_ref = slice (as_text (get "externalRef" (fields_of p))) 300;
                external_url = https_or_null (get "externalUrl" (fields_of p));
                message = slice (as_text (get "message" (fields_of p))) 300;
              }
              ∷ sanitize_parts left (suc i) items
        ])
    of_status none ih = ih
    of_status (some status) ih =
        ((slice-AtMost _ 300, https_or_null-IsHttps _, slice-AtMost _ 300), ih)

abbrev AreParts : List PublishPart → Type 0
AreParts parts = (length parts ≤ 50) × All IsPart parts

abbrev FewParts : Option (List PublishPart) → Type 0
FewParts none = Unit
FewParts (some parts) = AreParts parts

-- What the engine relies on, and the lengths that a receipt keeps.
abbrev pub IsSound : PublishOutcome → Type 0
IsSound (published ref url parts) = Within 300 ref × IsHttps url × FewParts parts
IsSound (accepted ref poll) = (ref ≢ []) × (length ref ≤ 300)
IsSound (partial ref url parts message) =
    Within 300 ref × IsHttps url × AreParts parts × Fits message
IsSound (failed cls message code after final) =
    (cls ≢ unknown_outcome) × Fits message × Within 100 code × IsDelay after
IsSound (unknown message ref) = Fits message × Within 300 ref

unfoldable Sound : Result Thrown PublishOutcome → Type 0
Sound (ok o) = IsSound o
Sound (err e) = Unit

ok-Sound : (o : PublishOutcome) → IsSound o → Sound (ok o)
unfolding Sound
ok-Sound o h = h

err-Sound : (e : Thrown) → Sound (err e)
unfolding Sound
err-Sound e = tt

choose-Sound :
    (b : Bool) (x y : Result Thrown PublishOutcome) → Sound x → Sound y → Sound (if b then x else y)
choose-Sound true x y hx hy = hx
choose-Sound false x y hx hy = hy

accepted-Sound :
    (ref : Option Text) (poll : Option ℤ) → Within 300 ref → Sound (validate_accepted ref poll)
unfolding Sound validate_accepted
accepted-Sound none poll h = tt
accepted-Sound (some ref) poll h = h

failed-Sound : (cls : ErrorClass) (o : Fields) → IsSound (failed_of cls o)
unfolding failed_of
failed-Sound unknown_outcome o = (or_text-Fits _ _ (str_within-Within _ 1000) (omega arith), tt)
failed-Sound cls o = (
  (λ e. cc),
  or_text-Fits _ _ (str_within-Within _ 1000) (omega arith),
  str_within-Within _ 100,
  retry_after-IsDelay _,
)

few : (v : Option Json) → FewParts (parts_given v)
few none = tt
few (some (arr items)) = (sanitize_parts-length 50 0 items, sanitize_parts-IsPart 50 0 items)
few (some _) = tt

published-Sound : (o : Fields) → IsSound (published_of o)
published-Sound o = (str_within-Within _ 300, https_or_null-IsHttps _, few (get "parts" o))

partial-Sound : (o : Fields) → IsSound (partial_of o)
partial-Sound o = (
  str_within-Within _ 300,
  https_or_null-IsHttps _,
  (
    sanitize_parts-length 50 0 (items_of (get "parts" o)),
    sanitize_parts-IsPart 50 0 (items_of (get "parts" o)),
  ),
  or_text-Fits _ _ (str_within-Within _ 1000) (omega arith),
)

unknown-Sound : (o : Fields) → IsSound (unknown_of o)
unknown-Sound o =
    (or_text-Fits _ _ (str_within-Within _ 1000) (omega arith), str_within-Within _ 300)

validate_fields-Sound : (o : Fields) → Sound (validate_fields o)
unfolding validate_fields
validate_fields-Sound o = choose-Sound _ (ok (published_of o)) _ (ok-Sound _ (published-Sound o)) (
    choose-Sound _ (validate_accepted _ _) _ (accepted-Sound _ _ (str_within-Within _ 300)) (
      choose-Sound _ (ok (partial_of o)) _ (ok-Sound _ (partial-Sound o)) (
        choose-Sound _ (ok (failed_of _ o)) _ (ok-Sound _ (failed-Sound _ o)) (
          choose-Sound _ (ok (unknown_of o)) (err _) (ok-Sound _ (unknown-Sound o))
            (err-Sound _)))))

validate_outcome-Sound : (v : Json) → Sound (validate_outcome v)
unfolding validate_outcome
validate_outcome-Sound v =
    choose-Sound _ (validate_fields (fields_of v)) (err _) (validate_fields-Sound (fields_of v))
      (err-Sound _)

-- An outcome that passes the validation has references of 1 to 300 code units, https links of at most
-- 2000, at most 50 parts, whose references and messages have at most 300 and whose links are such
-- links, and messages of at most 1000; an accepted operation has a reference, a failure is never of
-- the class `unknown_outcome`, and a delay that is asked for is positive and at most six hours.
pub validate_outcome-IsSound :
    (v : Json) (o : PublishOutcome) → validate_outcome v ≡ ok o → IsSound o
unfolding Sound
validate_outcome-IsSound v o h = rw h at (validate_outcome-Sound v)

-- What an exception of a provider that is not idempotent cannot become.
abbrev pub IsCautious : PublishOutcome → Type 0
IsCautious (published _ _ _) = ⊥
IsCautious (accepted _ _) = ⊥
IsCautious (partial _ _ _ _) = ⊥
IsCautious (failed cls _ _ _ _) = (cls ≢ transient) × (cls ≢ internal) × (cls ≢ unknown_outcome)
IsCautious (unknown _ _) = Unit

module _ (redact_string : Text → Text) where
  -- An exception of a provider whose submissions are not idempotent is a failure only if its class
  -- says that nothing was published: a transient, internal or unknown error is an unknown outcome.
  pub outcome_from_error-IsCautious :
      (e : Thrown) → IsCautious (outcome_from_error redact_string e false)
  unfolding outcome_from_error
  outcome_from_error-IsCautious e = ground arith

-- An operation that was accepted has a name.
abbrev pub IsNamed : PublishOutcome → Type 0
IsNamed (accepted ref poll) = ref ≢ []
IsNamed _ = Unit {0}

sound-IsNamed : (o : PublishOutcome) → IsSound o → IsNamed o
sound-IsNamed (accepted ref poll) h = h.0
sound-IsNamed (published _ _ _) h = tt
sound-IsNamed (partial _ _ _ _) h = tt
sound-IsNamed (failed _ _ _ _ _) h = tt
sound-IsNamed (unknown _ _) h = tt

module _ (redact_string : Text → Text) where
  outcome_from_error-IsNamed :
      (e : Thrown) (b : Bool) → IsNamed (outcome_from_error redact_string e b)
  unfolding outcome_from_error
  outcome_from_error-IsNamed e b = ground arith

  pub settle-IsNamed : (r : Reply) (b : Bool) → IsNamed (settle redact_string r b)
  unfolding settle
  settle-IsNamed (threw e) b = outcome_from_error-IsNamed e b
  settle-IsNamed (answered v) b = go (validate_outcome v) refl
    where
      go :
          (m : Result Thrown PublishOutcome)
          → validate_outcome v ≡ m
          → IsNamed (elim m [ ok o ↦ o | err e ↦ outcome_from_error redact_string e b ])
      go (ok o) e = sound-IsNamed o (validate_outcome-IsSound v o e)
      go (err x) e = outcome_from_error-IsNamed x b

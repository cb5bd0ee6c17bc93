-- ===== src/Prompb/Errors.antt =====
-- When marshalling fails.
use ome_kafka_bridge.Common.{is_some}
use ome_kafka_bridge.Common.{
  ℕ, ◌≡◌, ◌↔◌, ◌∙◌, sym, ap, refl, arith, Bool, true, false, ◌&&◌, Option-cases, inl, inr, Option,
  none, some, ◌>>=◌, List, [], ◌∷◌, Bytes,
}
use ome_kafka_bridge.Prompb.{
  Label, Sample, TimeSeries, WriteRequest, append_message, append_each, marshal_label,
  marshal_sample, marshal_time_series, marshal,
}

abbrev every {ℓ} : {A : Type ℓ} → (A → Bool) → List A → Bool
every test [] = true
every test (x ∷ xs) = test x && every test xs

abbrev has_name : Label → Bool
has_name l = elim l.name [ [] ↦ false | _ ∷ _ ↦ true ]

-- Every label of every series has a name.
abbrev pub all_named : WriteRequest → Bool
all_named r = every (λ ts. every has_name ts.labels) r.timeseries

is_some-bind {ℓ κ} :
    {A : Type ℓ} {B : Type κ} (o : Option A) (f : A → Option B) (test : Bool)
    → ((a : A) → is_some (f a) ≡ test)
    → is_some (o >>= f) ≡ (is_some o && test)
is_some-bind none f test h = refl
is_some-bind (some a) f test h = h a

is_some-append_each {ℓ} :
    {A : Type ℓ} (n : ℕ) (marshal_item : A → Option Bytes) (test : A → Bool)
    → ((x : A) → is_some (marshal_item x) ≡ test x)
    → (buf : Bytes) (xs : List A) → is_some (append_each n marshal_item buf xs) ≡ every test xs
unfolding append_each
is_some-append_each n marshal_item test each buf [] = refl
is_some-append_each n marshal_item test each buf (x ∷ xs) = rw (← each x) (
    is_some-bind (marshal_item x)
      (λ bytes. append_each n marshal_item (append_message buf n bytes) xs) (every test xs)
      (λ bytes. is_some-append_each n marshal_item test each (append_message buf n bytes) xs))

is_some-marshal_label : (l : Label) → is_some (marshal_label l) ≡ has_name l
unfolding marshal_label
is_some-marshal_label l = ground arith

is_some-marshal_sample : (s : Sample) → is_some (marshal_sample s) ≡ true
unfolding marshal_sample
is_some-marshal_sample s = refl

every-true {ℓ} : {A : Type ℓ} (xs : List A) → every (λ _. true) xs ≡ true
every-true [] = refl
every-true (x ∷ xs) = every-true xs

is_some-marshal_time_series :
    (ts : TimeSeries) → is_some (marshal_time_series ts) ≡ every has_name ts.labels
unfolding marshal_time_series
is_some-marshal_time_series ts =
    let samples =
      is_some-bind (append_each 1 marshal_label [] ts.labels)
        (λ buf. append_each 2 marshal_sample buf ts.samples) true
        (λ buf.
          is_some-append_each 2 marshal_sample (λ _. true) is_some-marshal_sample buf ts.samples
          ∙ every-true ts.samples) in
    let labels = is_some-append_each 1 marshal_label has_name is_some-marshal_label [] ts.labels in
    samples ∙ rw labels (ground arith)

is_some-marshal : (r : WriteRequest) → is_some (marshal r) ≡ all_named r
unfolding marshal
is_some-marshal r =
    is_some-append_each 1 marshal_time_series (λ ts. every has_name ts.labels)
      is_some-marshal_time_series [] r.timeseries

-- Marshalling fails exactly if a label of the request has no name.
pub marshal-none : (r : WriteRequest) → (marshal r ≡ none) ↔ (all_named r ≡ false)
marshal-none r = elim (Option-cases (marshal r)) [
  | inl e ↦ (λ h. sym (is_some-marshal r) ∙ ap is_some e, λ h. e)
  | inr (bytes, e) ↦
      let named : all_named r ≡ true = sym (is_some-marshal r) ∙ ap is_some e in
      (λ h. absurd (grind (arith, sym e ∙ h)), λ h. absurd (grind (arith, sym named ∙ h)))
]

-- ===== src/Broker/Outcome.antt =====
-- What a piece of the broker's code comes to.
use ome_kafka_bridge.Common.{◌≡◌, ◌⊎◌, inl, inr, refl, arith, Bool, true, false}

-- `panic` is a Go run-time panic: the broker recovers from none, so it ends the process. `stuck` is
-- no Go outcome: a loop that is modelled on fuel ran out of it.
pub data Outcome {ℓ} (A : Type ℓ) : Type ℓ where
  done : A → Outcome A
  panic : Outcome A
  stuck : Outcome A

abbrev pub bind {ℓ κ} : {A : Type ℓ} {B : Type κ} → Outcome A → (A → Outcome B) → Outcome B
bind (done a) f = f a
bind panic f = panic
bind stuck f = stuck

-- close(done) on a channel that is closed or not: to close it a second time is a panic.
unfoldable pub close_channel : Bool → Outcome Bool
close_channel false = done true
close_channel true = panic

-- Inversion of a sequence that came to an end.
pub bind-eq-done {ℓ κ} :
    {A : Type ℓ} {B : Type κ} (m : Outcome A) (f : A → Outcome B) {b : B}
    → bind m f ≡ done b
    → (a : A) × (m ≡ done a) × (f a ≡ done b)
bind-eq-done (done a) f h = (a, ground arith, h)
bind-eq-done panic f h = cc
bind-eq-done stuck f h = cc

-- Inversion of a sequence that panicked.
pub bind-eq-panic {ℓ κ} :
    {A : Type ℓ} {B : Type κ} (m : Outcome A) (f : A → Outcome B)
    → bind m f ≡ panic
    → (m ≡ panic) ⊎ ((a : A) × (m ≡ done a) × (f a ≡ panic))
bind-eq-panic (done a) f h = inr (a, refl, h)
bind-eq-panic panic f h = inl refl
bind-eq-panic stuck f h = cc

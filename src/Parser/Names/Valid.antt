-- ===== src/Parser/Names/Valid.antt =====
-- Sanitized names are metric names of Prometheus, of small letters, digits and underscores.
use ome_kafka_bridge.Common.{
  ℕ, zero, suc, ◌-◌, ◌≡◌, ◌↔◌, refl, arith, Bool, true, false, not, ◌&&◌, ◌||◌, ltb, ◌==◌, [], ◌∷◌,
  ◌++◌, Bytes, to_lower, subst, ap,
}
use ome_kafka_bridge.Parser.Names.{
  within, is_digit, rune_width, name_rune, sanitize_loop, sanitize_metric_name,
}

abbrev is_plain_byte : Bool → ℕ → Bool
is_plain_byte first c = within b'a' b'z' c || c == b'_' || (is_digit c && not first)

-- Small letters, digits and underscores, and no digit first.
abbrev pub is_plain : Bool → Bytes → Bool
is_plain first [] = true
is_plain first (c ∷ s) = is_plain_byte first c && is_plain false s

is_plain-sanitize_loop :
    (first : Bool) (skip : ℕ) (s : Bytes)
    → is_plain first (to_lower (sanitize_loop first skip s)) ≡ true
unfolding sanitize_loop to_lower name_rune
is_plain-sanitize_loop first zero [] = refl
is_plain-sanitize_loop first (suc skip) [] = refl
is_plain-sanitize_loop first (suc skip) (b ∷ s) = is_plain-sanitize_loop first skip s
is_plain-sanitize_loop first zero (b ∷ s) =
    ground (arith, is_plain-sanitize_loop false (rune_width b s - 1) s)

plain-sanitize_metric_name : (s : Bytes) → is_plain true (sanitize_metric_name s) ≡ true
unfolding sanitize_metric_name
plain-sanitize_metric_name s = is_plain-sanitize_loop true 0 s

-- A letter, an underscore or a colon, and digits after those.
abbrev is_metric_byte : Bool → ℕ → Bool
is_metric_byte first c =
    within b'a' b'z' c || within b'A' b'Z' c || c == b'_' || c == b':' || (is_digit c && not first)

abbrev pub metric_bytes : Bool → Bytes → Bool
metric_bytes first [] = not first
metric_bytes first (c ∷ s) = is_metric_byte first c && metric_bytes false s

-- The metric names of Prometheus: `[a-zA-Z_:][a-zA-Z0-9_:]*`.
abbrev pub is_metric_name : Bytes → Bool
is_metric_name s = metric_bytes true s

metric_bytes-plain : (s : Bytes) → is_plain false s ≡ true → metric_bytes false s ≡ true
metric_bytes-plain [] h = refl
metric_bytes-plain (c ∷ s) h = ground (arith, metric_bytes-plain s)

-- Whatever the bytes of a text are, if it has any, the sanitized text is a metric name of Prometheus.
pub is_metric_name-sanitize_metric_name :
    (b : ℕ) (s : Bytes) → is_metric_name (sanitize_metric_name (b ∷ s)) ≡ true
unfolding sanitize_metric_name sanitize_loop to_lower name_rune
is_metric_name-sanitize_metric_name b s = ground (
  arith,
  metric_bytes-plain (to_lower (sanitize_loop false (rune_width b s - 1) s))
      (is_plain-sanitize_loop false (rune_width b s - 1) s),
)

and_parts : (a b : Bool) → (a && b) ≡ true → (a ≡ true) × (b ≡ true)
and_parts a b h = ground arith

ascii_width : (b : ℕ) (s : Bytes) → ltb b 128 ≡ true → rune_width b s ≡ 1
unfolding rune_width
ascii_width b s h = ground arith

name_byte-kept :
    (first : Bool) (b : ℕ)
    → is_plain_byte first b ≡ true
    → (to_lower (name_rune first b ∷ []) ≡ b ∷ []) × (ltb b 128 ≡ true)
unfolding name_rune to_lower
name_byte-kept first b h = ground arith

sanitize_loop-name :
    (first : Bool) (s : Bytes) → is_plain first s ≡ true → to_lower (sanitize_loop first 0 s) ≡ s
unfolding sanitize_loop to_lower
sanitize_loop-name first [] h = refl
sanitize_loop-name first (b ∷ s) h =
    let (byte, rest) = and_parts (is_plain_byte first b) (is_plain false s) h in
    let (kept, ascii) = name_byte-kept first b byte in
    rw (ascii_width b s ascii, sanitize_loop-name false s rest) (ap (λ (t : Bytes). t ++ s) kept)

-- A text is left as it is exactly if it consists of small letters, digits and underscores and does
-- not begin with a digit, or is empty.
pub sanitize_metric_name-eq : (s : Bytes) → (sanitize_metric_name s ≡ s) ↔ (is_plain true s ≡ true)
unfolding sanitize_metric_name
sanitize_metric_name-eq s = (
  λ e. subst (λ t. is_plain true t ≡ true) e (plain-sanitize_metric_name s),
  sanitize_loop-name true s,
)

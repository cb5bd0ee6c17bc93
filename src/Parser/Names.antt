-- ===== src/Parser/Names.antt =====
-- sanitizeMetricName of parser.go. Go ranges over the runes of a string: a rune is one to four bytes
-- of UTF-8, and a byte that starts none is a rune of its own.
pub mod Valid
use ome_kafka_bridge.Common.{
  ℕ, zero, suc, ◌-◌, Bool, true, false, not, ◌&&◌, ◌||◌, ltb, leb, ◌==◌, if◌then◌else◌, [], ◌∷◌,
  Bytes, to_lower,
}

abbrev pub within : ℕ → ℕ → ℕ → Bool
within lo hi b = leb lo b && leb b hi

-- The bytes of a rune whose second byte is between `lo` and `hi`, 1 if they are not all there.
abbrev two_bytes : Bytes → ℕ
two_bytes (c ∷ _) = if within 0x80 0xBF c then 2 else 1
two_bytes [] = 1

abbrev three_bytes : ℕ → ℕ → Bytes → ℕ
three_bytes lo hi (c ∷ d ∷ _) = if within lo hi c && within 0x80 0xBF d then 3 else 1
three_bytes lo hi _ = 1

abbrev four_bytes : ℕ → ℕ → Bytes → ℕ
four_bytes lo hi (c ∷ d ∷ e ∷ _) =
    if within lo hi c && within 0x80 0xBF d && within 0x80 0xBF e then 4 else 1
four_bytes lo hi _ = 1

-- The width of the rune that starts with `b`, as the language's `range` takes it.
unfoldable pub rune_width : ℕ → Bytes → ℕ
rune_width b rest =
    if within 0xC2 0xDF b
    then two_bytes rest
    else if b == 0xE0
    then three_bytes 0xA0 0xBF rest
    else if b == 0xED
    then three_bytes 0x80 0x9F rest
    else if within 0xE1 0xEF b
    then three_bytes 0x80 0xBF rest
    else if b == 0xF0
    then four_bytes 0x90 0xBF rest
    else if within 0xF1 0xF3 b
    then four_bytes 0x80 0xBF rest
    else if b == 0xF4
    then four_bytes 0x80 0x8F rest
    else 1

abbrev pub is_letter : ℕ → Bool
is_letter r = within b'a' b'z' r || within b'A' b'Z' r || r == b'_'

abbrev pub is_digit : ℕ → Bool
is_digit r = within b'0' b'9' r

-- What is written for a rune, by its first byte: a rune of several bytes is none of the letters.
unfoldable pub name_rune : Bool → ℕ → ℕ
name_rune first r = if is_letter r || (is_digit r && not first) then r else b'_'

-- The loop, with the bytes of the rune before that are still to be skipped.
unfoldable pub sanitize_loop : Bool → ℕ → Bytes → Bytes
unfolding rune_width name_rune
sanitize_loop first skip [] = []
sanitize_loop first (suc skip) (b ∷ s) = sanitize_loop first skip s
sanitize_loop first zero (b ∷ s) = name_rune first b ∷ sanitize_loop false (rune_width b s - 1) s

unfoldable pub sanitize_metric_name : Bytes → Bytes
unfolding sanitize_loop to_lower
sanitize_metric_name s = to_lower (sanitize_loop true 0 s)

-- ===== src/Common/Sort.antt =====
-- The order of Go's strings and sort.Strings.
use mathlib.Core.Bool.{Bool, true, false, ◌&&◌, ◌||◌}
use mathlib.Core.List.{List, [], ◌∷◌}
use ome_kafka_bridge.Common.Tests.{ltb, ◌==◌, if◌then◌else◌}
use ome_kafka_bridge.Common.Lists.{Bytes}

-- s <= t
unfoldable pub text_leb : Bytes → Bytes → Bool
text_leb [] t = true
text_leb (a ∷ s) [] = false
text_leb (a ∷ s) (b ∷ t) = ltb a b || (a == b && text_leb s t)

unfoldable pub insert : Bytes → List Bytes → List Bytes
unfolding text_leb
insert s [] = s ∷ []
insert s (t ∷ ts) = let rest = insert s ts in if text_leb s t then s ∷ t ∷ ts else t ∷ rest

unfoldable pub sort : List Bytes → List Bytes
unfolding insert
sort [] = []
sort (s ∷ ss) = insert s (sort ss)

-- ===== src/Lokiwriter/Quotient.antt =====
-- Label sets as Go's maps: lists of labels, up to the order.
use ome_kafka_bridge.Common.{◌≡◌, ◌↔◌, ap, Bytes}
use mathlib.Core.Quot
use mathlib.Core.Quot.{Quot, Quot-set}
use ome_kafka_bridge.Labels.{Labels}
use ome_kafka_bridge.Labels.Laws.{HasNoDuplicates}
use ome_kafka_bridge.Lokiwriter.{fingerprint}
use ome_kafka_bridge.Lokiwriter.Maps.{SameMap, fingerprint-SameMap}
use ome_kafka_bridge.Lokiwriter.Injective.{IsPlain, fingerprint_iff}

abbrev pub Listing : Type 0
Listing = (labels : Labels) × HasNoDuplicates labels

abbrev SameListing : Listing → Listing → Type 0
SameListing s t = SameMap s.0 t.0

-- A map[string]string: what its listings have in common.
abbrev pub LabelMap : Type 0
LabelMap = Quot SameListing

unfoldable pub map_of : (labels : Labels) → HasNoDuplicates labels → LabelMap
map_of labels h = Quot.mk (labels, h)

-- The fingerprint of a map: every listing gives the same one.
unfoldable pub fingerprint_of : LabelMap → Bytes
fingerprint_of =
    Quot.lift (hlevel) (λ s. fingerprint s.0) (λ s t h. fingerprint-SameMap s.0 t.0 s.1 t.1 h)

-- Two plain listings have the same fingerprint exactly if they are one map.
pub fingerprint_of_iff :
    (s t : Labels) (ds : HasNoDuplicates s) (dt : HasNoDuplicates t)
    → IsPlain s
    → IsPlain t
    → (fingerprint_of (map_of s ds) ≡ fingerprint_of (map_of t dt)) ↔ (map_of s ds ≡ map_of t dt)
unfolding fingerprint_of map_of
fingerprint_of_iff s t ds dt hs ht =
    ((λ e. Quot.sound ((fingerprint_iff s t ds dt hs ht).0 e)), (λ e. ap fingerprint_of e))

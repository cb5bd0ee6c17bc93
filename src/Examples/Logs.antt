-- ===== src/Examples/Logs.antt =====
-- A batch of three log entries, two of them with the same labels.
use ome_kafka_bridge.Common.{
  ◌≡◌, ◌↔◌, refl, false, true, List, [], ◌∷◌, ◌++◌, Bytes, codes, pos, str_eq,
}
use ome_kafka_bridge.Common.{text_leb}
use ome_kafka_bridge.Labels.{Labels, lookup}
use ome_kafka_bridge.Lokiwriter.{Entry, find, fingerprint, group}
use ome_kafka_bridge.Lokiwriter.Group.{stream_of, matching, find-group}
use ome_kafka_bridge.Lokiwriter.Maps.{SameMap}
use ome_kafka_bridge.Lokiwriter.Injective.{fingerprint_iff}
use ome_kafka_bridge.Lokiwriter.Fingerprint.{fingerprint-collides}

abbrev alert_labels : Labels
alert_labels = (codes "job", codes "ome") ∷ (codes "app", codes "alerts") ∷ []

abbrev audit_labels : Labels
audit_labels = (codes "job", codes "ome") ∷ (codes "app", codes "audit") ∷ []

abbrev entry : Labels → Bytes → Entry
entry labels line = record {
  stream_labels = labels;
  timestamp = pos 1700000000000000000;
  line = line;
}

abbrev batch : List Entry
batch =
    entry alert_labels (codes "fan")
    ∷ entry audit_labels (codes "login")
    ∷ entry alert_labels (codes "power")
    ∷ []

find-group_example :
    find (group [] batch) (fingerprint alert_labels)
    ≡ stream_of (matching (fingerprint alert_labels) batch)
find-group_example = find-group batch (fingerprint alert_labels)

-- The labels in the other order.
abbrev turned_labels : Labels
turned_labels = (codes "app", codes "alerts") ∷ (codes "job", codes "ome") ∷ []

fingerprint_iff_example :
    (fingerprint alert_labels ≡ fingerprint turned_labels) ↔ SameMap alert_labels turned_labels
unfolding lookup str_eq
fingerprint_iff_example =
    fingerprint_iff alert_labels turned_labels (refl, (refl, tt)) (refl, (refl, tt))
      (refl, refl, (refl, refl, tt)) (refl, refl, (refl, refl, tt))

-- The names are sorted.
fingerprint_bytes : fingerprint alert_labels ≡ codes "app=alerts,job=ome,"
unfolding fingerprint str_eq
fingerprint_bytes = refl

before : text_leb (codes "a") (codes "b") ≡ true
unfolding text_leb
before = refl

other : str_eq (codes "a") (codes "b") ≡ false
unfolding str_eq
other = refl

fingerprint-collides_example :
    fingerprint
      ((codes "a", codes "1" ++ (codes "," ++ (codes "b" ++ (codes "=" ++ codes "2")))) ∷ [])
    ≡ fingerprint ((codes "a", codes "1") ∷ (codes "b", codes "2") ∷ [])
fingerprint-collides_example =
    fingerprint-collides (codes "a") (codes "b") (codes "1") (codes "2") before other

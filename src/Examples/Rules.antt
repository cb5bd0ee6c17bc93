-- ===== src/Examples/Rules.antt =====
-- Relabelling rules over two labels. The expression of the rules matches names that start with `t`.
use ome_kafka_bridge.Common.{to_lower}
use ome_kafka_bridge.Common.{is_some}
use ome_kafka_bridge.Common.{
  ◌≡◌, refl, Bool, true, false, ◌&&◌, ◌==◌, if◌then◌else◌, none, List, [], ◌∷◌, map, Bytes, codes,
  str_eq, contains,
}
use ome_kafka_bridge.Labels.{Labels, lookup}
use ome_kafka_bridge.Relabel.{Regexp, CompiledRule, apply_rule}
use ome_kafka_bridge.Relabel.Filter.{apply_rule-labelkeep}
use ome_kafka_bridge.Relabel.Replace.{non_empty, joined, apply_rule-replace}

abbrev starts_with_t : Bytes → Bool
starts_with_t [] = false
starts_with_t (c ∷ s) = c == 116

abbrev expression : Regexp
expression = record { matches = starts_with_t; replace_all = λ val replacement. replacement }

abbrev rule : Bytes → CompiledRule
rule action = record {
  config = record {
    source_labels = codes "type" ∷ codes "host" ∷ [];
    separator = codes ";";
    target_label = codes "kind";
    regex = codes "t.*";
    replacement = codes "temp";
    action = action;
  };
  re = expression;
}

abbrev labels : Labels
labels = (codes "type", codes "thermal") ∷ (codes "host", codes "r740") ∷ []

abbrev range : Labels → List Bytes
range = map (λ (k, _). k)

host-visited : contains (range labels) (codes "host") ≡ is_some (lookup labels (codes "host"))
unfolding contains lookup str_eq
host-visited = refl

keep-action : to_lower (codes "LabelKeep") ≡ codes "labelkeep"
unfolding to_lower
keep-action = refl

replace-action : to_lower (codes "Replace") ≡ codes "replace"
unfolding to_lower
replace-action = refl

apply_rule-labelkeep_example :
    ((apply_rule range (rule (codes "LabelKeep")) labels).0 ≡ true)
    × (lookup (apply_rule range (rule (codes "LabelKeep")) labels).1 (codes "host")
        ≡ (if starts_with_t (codes "host") then lookup labels (codes "host") else none))
apply_rule-labelkeep_example =
    apply_rule-labelkeep range (rule (codes "LabelKeep")) labels (codes "host") host-visited
      keep-action

apply_rule-replace_example :
    ((apply_rule range (rule (codes "Replace")) labels).0 ≡ true)
    × (lookup (apply_rule range (rule (codes "Replace")) labels).1 (codes "kind") ≡ (
        if starts_with_t (joined (rule (codes "Replace")) labels)
          && str_eq (codes "kind") (codes "kind")
        then non_empty (codes "temp")
        else lookup labels (codes "kind")))
apply_rule-replace_example =
    apply_rule-replace range (rule (codes "Replace")) labels (codes "kind") replace-action (λ e. cc)

-- ===== src/Relabel/Replace.antt =====
-- What a replace rule sets.
use ome_kafka_bridge.Common.{to_lower}
use ome_kafka_bridge.Common.{
  ◌≡◌, ◌≢◌, refl, true, ◌&&◌, if◌then◌else◌, Bool-cases, inl, inr, Option, none, some, List, [],
  ◌∷◌, Bytes, codes, str_eq,
}
use ome_kafka_bridge.Labels.{Labels, lookup}
use ome_kafka_bridge.Labels.Laws.{lookup-set, lookup-delete}
use ome_kafka_bridge.Relabel.{CompiledRule, set_target, replace_label, join_values, apply_rule}

-- An empty value stands for a label that is not there.
abbrev pub non_empty : Bytes → Option Bytes
non_empty [] = none
non_empty (c ∷ s) = some (c ∷ s)

lookup-set_target :
    (target replacement n : Bytes) (labels : Labels)
    → target ≢ []
    → lookup (set_target target replacement labels) n
      ≡ (if str_eq target n then non_empty replacement else lookup labels n)
unfolding set_target
lookup-set_target [] replacement n labels h = absurd (h refl)
lookup-set_target (c ∷ t) [] n labels h = lookup-delete labels (c ∷ t) n
lookup-set_target (c ∷ t) (d ∷ s) n labels h = lookup-set labels (c ∷ t) (d ∷ s) n

lookup-replace_label :
    (rule : CompiledRule) (val n : Bytes) (labels : Labels)
    → rule.config.target_label ≢ []
    → lookup (replace_label rule val labels) n ≡ (
        if rule.re.matches val && str_eq rule.config.target_label n
        then non_empty (rule.re.replace_all val rule.config.replacement)
        else lookup labels n)
unfolding replace_label
lookup-replace_label rule val n labels target = elim (Bool-cases (rule.re.matches val)) [
  | inl matched ↦ rw matched (
      lookup-set_target rule.config.target_label (rule.re.replace_all val rule.config.replacement) n
        labels target)
  | inr unmatched ↦ rw unmatched refl
]

-- The value that a rule matches against.
abbrev pub joined : CompiledRule → Labels → Bytes
joined rule labels = join_values labels rule.config.source_labels rule.config.separator

module _ (range : Labels → List Bytes) (rule : CompiledRule) (labels : Labels) (n : Bytes) where
  -- A replace rule with a target goes on. If the joined source labels match, the target gets the
  -- replacement, or goes away if that is empty; no other label changes.
  pub apply_rule-replace :
      to_lower rule.config.action ≡ codes "replace"
      → rule.config.target_label ≢ []
      → ((apply_rule range rule labels).0 ≡ true)
        × (lookup (apply_rule range rule labels).1 n ≡ (
            if rule.re.matches (joined rule labels) && str_eq rule.config.target_label n
            then non_empty (rule.re.replace_all (joined rule labels) rule.config.replacement)
            else lookup labels n))
  unfolding apply_rule str_eq
  apply_rule-replace action target =
      rw action (refl, lookup-replace_label rule (joined rule labels) n labels target)

-- ===== src/Relabel/Filter.antt =====
-- Which labels are left by labeldrop and labelkeep.
use ome_kafka_bridge.Common.{to_lower}
use ome_kafka_bridge.Common.{is_some}
use ome_kafka_bridge.Common.{
  ◌≡◌, ◌∙◌, refl, arith, Bool, true, false, not, ◌&&◌, if◌then◌else◌, Option, none, List, [], ◌∷◌,
  Bytes, codes, str_eq, str_eq_iff, contains, Option-cases,
}
use ome_kafka_bridge.Labels.{Labels, lookup, delete}
use ome_kafka_bridge.Labels.Laws.{lookup-delete}
use ome_kafka_bridge.Relabel.{CompiledRule, drop_labels, apply_rule}

lookup-drop_labels :
    (test : Bytes → Bool) (ks : List Bytes) (labels : Labels) (n : Bytes)
    → lookup (drop_labels test ks labels) n
      ≡ (if contains ks n && test n then none else lookup labels n)
unfolding drop_labels contains
lookup-drop_labels test [] labels n = refl
lookup-drop_labels test (k ∷ ks) labels n = ground (
  arith,
  lookup-drop_labels test ks labels n,
  lookup-drop_labels test ks (delete labels k) n,
  lookup-delete labels k n,
  str_eq_iff k n,
)

not-if {ℓ} :
    {A : Type ℓ} (b : Bool) (o : Option A) → (if not b then none else o) ≡ (if b then o else none)
not-if true o = refl
not-if false o = refl

module _ (range : Labels → List Bytes) (rule : CompiledRule) (labels : Labels) (n : Bytes)
    (visited : contains (range labels) n ≡ is_some (lookup labels n)) where
  drop-visited :
      (test : Bytes → Bool)
      → lookup (drop_labels test (range labels) labels) n
        ≡ (if test n then none else lookup labels n)
  drop-visited test =
      lookup-drop_labels test (range labels) labels n
      ∙ rw visited (ground (arith, Option-cases (lookup labels n)))

  -- A labelkeep rule goes on, and leaves a label as it is if its name matches and deletes it
  -- otherwise, given that a loop over the map visits the name if and only if it is there.
  pub apply_rule-labelkeep :
      to_lower rule.config.action ≡ codes "labelkeep"
      → ((apply_rule range rule labels).0 ≡ true)
        × (lookup (apply_rule range rule labels).1 n
            ≡ (if rule.re.matches n then lookup labels n else none))
  unfolding apply_rule str_eq
  apply_rule-labelkeep action = rw action (
    refl,
    drop-visited (λ k. not (rule.re.matches k)) ∙ not-if (rule.re.matches n) (lookup labels n),
  )

  -- A labeldrop rule goes on, and deletes a label if its name matches and leaves it as it is
  -- otherwise, given that a loop over the map visits the name if and only if it is there.
  pub apply_rule-labeldrop :
      to_lower rule.config.action ≡ codes "labeldrop"
      → ((apply_rule range rule labels).0 ≡ true)
        × (lookup (apply_rule range rule labels).1 n
            ≡ (if rule.re.matches n then none else lookup labels n))
  unfolding apply_rule str_eq
  apply_rule-labeldrop action = rw action (refl, drop-visited rule.re.matches)

-- ===== src/Relabel.antt =====
-- internal/relabel/relabel.go: relabelling rules over a label set, which the rules change in place.
-- A label set is a list of names and values that has each name once. The regular expressions and
-- the order in which Go ranges over a map are parameters. An action is ASCII.
pub mod Filter
pub mod Replace
use ome_kafka_bridge.Common.{
  ℕ, ◌+◌, Bool, true, false, not, ltb, ◌||◌, ◌&&◌, if◌then◌else◌, Option, none, some, ◌>>=◌, List,
  [], ◌∷◌, ◌++◌, Bytes, codes, str_eq, to_lower,
}
use ome_kafka_bridge.Config.{RelabelConfig, text_or}
use ome_kafka_bridge.Labels.{Labels, get, set, delete}

-- A compiled expression: MatchString, and ReplaceAllString with its replacement.
pub record Regexp : Type 0 where
  pub matches : Bytes → Bool
  pub replace_all : Bytes → Bytes → Bytes

pub record CompiledRule : Type 0 where
  pub config : RelabelConfig
  pub re : Regexp

-- `^(?:` and `)$` around the expression
abbrev anchored : Bytes → Bytes
anchored regex = codes "^(?:" ++ (text_or regex (codes "(.*)") ++ codes ")$")

module _ (compile : Bytes → Option Regexp) where
  unfoldable pub compile_rule : RelabelConfig → Option CompiledRule
  compile_rule r = do
    re ← compile (anchored r.regex)
    some (record {
      config = record r {
        separator = text_or r.separator (codes ";");
        replacement = text_or r.replacement (codes "$1");
      };
      re = re;
    })

  -- New: the first expression that does not compile is an error, `none`.
  unfoldable pub new : List RelabelConfig → Option (List CompiledRule)
  unfolding compile_rule
  new [] = some []
  new (r ∷ rs) = do rule ← compile_rule r; rules ← new rs; some (rule ∷ rules)

-- strings.Join of the values, where a name that is not there has the empty value
unfoldable pub join_values : Labels → List Bytes → Bytes → Bytes
join_values labels [] sep = []
join_values labels (k ∷ []) sep = get labels k
join_values labels (k ∷ k' ∷ ks) sep = get labels k ++ (sep ++ join_values labels (k' ∷ ks) sep)

-- Without a target nothing is set, and an empty replacement deletes the target.
unfoldable pub set_target : Bytes → Bytes → Labels → Labels
unfolding set delete
set_target [] replacement labels = labels
set_target (c ∷ t) [] labels = delete labels (c ∷ t)
set_target (c ∷ t) (d ∷ s) labels = set labels (c ∷ t) (d ∷ s)

-- `replace`, with the value that the source labels have joined
unfoldable pub replace_label : CompiledRule → Bytes → Labels → Labels
unfolding set_target
replace_label rule val labels =
    if rule.re.matches val
    then set_target rule.config.target_label (rule.re.replace_all val rule.config.replacement)
        labels
    else labels

-- `labelmap` over the names that the loop visits, with their values at that time
unfoldable pub map_labels : CompiledRule → List Bytes → Labels → Labels
unfolding set
map_labels rule [] labels = labels
map_labels rule (k ∷ ks) labels =
    let new_key = rule.re.replace_all k rule.config.replacement in
    map_labels rule ks (if rule.re.matches k then set labels new_key (get labels k) else labels)

-- The loop of `labeldrop` and `labelkeep`: the visited names that pass the test are deleted.
unfoldable pub drop_labels : (Bytes → Bool) → List Bytes → Labels → Labels
unfolding delete
drop_labels test [] labels = labels
drop_labels test (k ∷ ks) labels = drop_labels test ks (if test k then delete labels k else labels)

-- `range` gives the names that a loop over the map visits.
module _ (range : Labels → List Bytes) where
  -- Whether the rules go on, and the labels as the rule leaves them.
  unfoldable pub apply_rule : CompiledRule → Labels → Bool × Labels
  unfolding join_values to_lower replace_label map_labels drop_labels
  apply_rule rule labels =
      let action = to_lower rule.config.action in
      let val = join_values labels rule.config.source_labels rule.config.separator in
      if str_eq action (codes "drop")
      then (not (rule.re.matches val), labels)
      else if str_eq action (codes "keep")
      then (rule.re.matches val, labels)
      else if str_eq action (codes "replace") || str_eq action []
      then (true, replace_label rule val labels)
      else if str_eq action (codes "labelmap")
      then (true, map_labels rule (range labels) labels)
      else if str_eq action (codes "labeldrop")
      then (true, drop_labels rule.re.matches (range labels) labels)
      else if str_eq action (codes "labelkeep")
      then (true, drop_labels (λ k. not (rule.re.matches k)) (range labels) labels)
      else (true, labels)

  -- The first rule that drops ends the loop.
  unfoldable pub apply : List CompiledRule → Labels → Bool × Labels
  unfolding apply_rule
  apply [] labels = (true, labels)
  apply (rule ∷ rules) labels =
      let (keep, labels') = apply_rule rule labels in
      let rest = apply rules labels' in if keep then rest else (false, labels')

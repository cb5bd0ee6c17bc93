-- ===== src/Cache/Memory.antt =====
-- A file system in memory: names and contents, each name once. Every file is in the one directory.
use ome_kafka_bridge.Common.{
  ℕ, ◌≡◌, ◌≢◌, ◌∙◌, arith, ap, subst, Bool, false, Option, none, some, ◌++◌, map, Bytes, codes, [],
  ◌∷◌, str_eq, length, str_eq_iff, List, IsIn, here, there, Bool-cases, inl, inr,
}
use ome_kafka_bridge.Labels.{Labels, lookup, set, delete}
use ome_kafka_bridge.Labels.Laws.{lookup-set, lookup-delete}
use ome_kafka_bridge.Cache.Files.{FileSystem, KeepsOthers, KeepsWritten}

abbrev size : Option Bytes → Option ℕ
size none = none
size (some bytes) = some (length bytes)

abbrev pub memory : FileSystem
memory = record {
  Disk = Labels;
  join = λ dir name. dir ++ (codes "/" ++ name);
  mkdir_all = λ d dir. some d;
  glob = λ d pattern_. some (map (λ (name, _). name) d);
  stat = λ d path. size (lookup d path);
  read_file = lookup;
  write_file = λ d path data_. (set d path data_, false);
  remove = delete;
}

lookup-delete_other : (d : Labels) (p q : Bytes) → p ≢ q → lookup (delete d p) q ≡ lookup d q
lookup-delete_other d p q h = lookup-delete d p q ∙ ground (arith, str_eq_iff p q)

lookup-set_same : (d : Labels) (p bytes : Bytes) → lookup (set d p bytes) p ≡ some bytes
lookup-set_same d p bytes = lookup-set d p bytes p ∙ ground (arith, str_eq_iff p p)

pub memory-KeepsOthers : KeepsOthers memory
memory-KeepsOthers = record {
  stat-remove = λ d p q h. ap size (lookup-delete_other d p q h);
  read_file-remove = λ d p q h. lookup-delete_other d p q h;
}

names-set : (d : Labels) (p bytes : Bytes) → IsIn p (map (λ (name, _). name) (set d p bytes))
unfolding set
names-set [] p bytes = here
names-set ((n, b) ∷ d) p bytes = elim (Bool-cases (str_eq n p)) [
  | inl same ↦ (let e : n ≡ p = (str_eq_iff n p).0 same in rw (same, set, e) here)
  | inr other ↦ rw (other, set) (there (names-set d p bytes))
]

names-written :
    (d : Labels) (p bytes : Bytes) (d' : Labels) (files : List Bytes)
    → ◌≡◌ {A = Labels × Bool} (set d p bytes, false) (d', false)
    → ◌≡◌ {A = Option (List Bytes)} (some (map (λ (name, _). name) d')) (some files)
    → IsIn p files
names-written d p bytes d' files h g =
    let written : set d p bytes ≡ d' = ap (λ (r : Labels × Bool). r.0) h in
    let listed : map (λ (name, _). name) d' ≡ files = cc in
    subst (λ (names : List Bytes). IsIn p names) listed
      (subst (λ (e : Labels). IsIn p (map (λ (name, _). name) e)) written (names-set d p bytes))

pub memory-KeepsWritten : KeepsWritten memory
memory-KeepsWritten = record {
  read_file-write_file = λ d p bytes d' h.
      subst (λ e. lookup e p ≡ some bytes) (ap (λ (r : Labels × Bool). r.0) h)
        (lookup-set_same d p bytes);
  glob-write_file = λ d dir name bytes d' files h g.
      names-written d (dir ++ (codes "/" ++ (name ++ codes ".json"))) bytes d' files h g;
}

-- ===== src/Labels.antt =====
-- A map[string]string, as a list of names and values that has each name once. Go ranges over a map
-- in an order of its own; what depends on it takes the order as a parameter.
pub mod Laws
use ome_kafka_bridge.Common.{
  Bool, true, false, if◌then◌else◌, Option, none, some, List, [], ◌∷◌, map, Bytes, str_eq,
}

abbrev pub Labels : Type 0
Labels = List (Bytes × Bytes)

unfoldable pub lookup : Labels → Bytes → Option Bytes
lookup [] k = none
lookup ((n, v) ∷ labels) k = if str_eq n k then some v else lookup labels k

-- labels[k], which is empty for a name that is not there
unfoldable pub get : Labels → Bytes → Bytes
get [] k = []
get ((n, v) ∷ labels) k = if str_eq n k then v else get labels k

-- labels[k] = v
unfoldable pub set : Labels → Bytes → Bytes → Labels
set [] k v = (k, v) ∷ []
set ((n, w) ∷ labels) k v =
    let rest = set labels k v in if str_eq n k then (n, v) ∷ labels else (n, w) ∷ rest

-- delete(labels, k)
unfoldable pub delete : Labels → Bytes → Labels
delete [] k = []
delete ((n, v) ∷ labels) k =
    let rest = delete labels k in if str_eq n k then rest else (n, v) ∷ rest

-- `for k, v := range src { dst[k] = v }`
unfoldable pub merge : Labels → Labels → Labels
unfolding set
merge dst [] = dst
merge dst ((k, v) ∷ src) = merge (set dst k v) src

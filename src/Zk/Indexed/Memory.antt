-- ===== src/Zk/Indexed/Memory.antt =====
-- zk/indexed/mem.go: `MemIndex`, the in-memory index. Its two slices, of one length, are one list of
-- pairs, and `sort.Search` is the first position at which its predicate holds.
pub mod Entries
pub mod Sorted
use earth_network_chain.Base.{
  ℕ, zero, suc, ◌-◌, ◌+◌, Bool, leb, ◌==◌, if◌then◌else◌, Option, none, some, List, [], ◌∷◌, Result,
  ok, ◌>>=◌,
}
use earth_network_chain.Zk.Merkle.{new_mem}
use earth_network_chain.Zk.Indexed.{Index, IndexedTree, insert_all}

-- The entry at a position, where there is one.
abbrev pub get_elem? : {A : Type 0} → ℕ → List A → Option A
get_elem? i [] = none
get_elem? zero (e ∷ es) = some e
get_elem? (suc i) (e ∷ es) = get_elem? i es

-- A slice with one more entry, the entries from its position on moved one up.
abbrev pub insert_at : {A : Type 0} → ℕ → A → List A → List A
insert_at zero e es = e ∷ es
insert_at (suc i) e [] = e ∷ []
insert_at (suc i) e (d ∷ ds) = d ∷ insert_at i e ds

-- `search`.
unfoldable pub search : ℕ → List (ℕ × ℕ) → ℕ
search v [] = 0
search v ((w, j) ∷ es) = if leb v w then 0 else suc (search v es)

-- `Get`, `Below` and `Above`, from the position that `search` gives.
abbrev pub get_at : ℕ → ℕ → List (ℕ × ℕ) → Option ℕ
get_at v i es = elim (get_elem? i es) [
  | none ↦ none
  | some e ↦ if e.0 == v then some (e.1) else none
]

abbrev pub below_at : ℕ → List (ℕ × ℕ) → Option (ℕ × ℕ)
below_at zero es = none
below_at (suc i) es = get_elem? i es

abbrev pub above_at : ℕ → ℕ → List (ℕ × ℕ) → Option (ℕ × ℕ)
above_at v i es = elim (get_elem? i es) [
  | none ↦ none
  | some e ↦ if e.0 == v then get_elem? (suc i) es else some e
]

-- `Get`.
unfoldable pub mem_get : ℕ → List (ℕ × ℕ) → Option ℕ
mem_get v es = get_at v (search v es) es

-- `Below`.
unfoldable pub mem_below : ℕ → List (ℕ × ℕ) → Option (ℕ × ℕ)
mem_below v es = below_at (search v es) es

-- `Above`.
unfoldable pub mem_above : ℕ → List (ℕ × ℕ) → Option (ℕ × ℕ)
mem_above v es = above_at v (search v es) es

-- `Put`.
unfoldable pub mem_put : ℕ → ℕ → List (ℕ × ℕ) → List (ℕ × ℕ)
mem_put v index es = insert_at (search v es) (v, index) es

-- `MemIndex`.
abbrev pub mem_index : Index
mem_index = record {
  State = List (ℕ × ℕ);
  get = mem_get;
  below = mem_below;
  above = mem_above;
  put = mem_put;
}

-- `NewMem`.
abbrev pub new_indexed : {F : Type 0} → IndexedTree mem_index F
new_indexed = record { nodes = new_mem; index = [] }

module _ {F : Type 0} (node : F → F → F) (empty : F) (leaf_hash : ℕ → ℕ → ℕ → F) where
  -- `Rebuild`.
  unfoldable pub rebuild : List ℕ → Result (IndexedTree mem_index F)
  rebuild values = insert_all node empty leaf_hash mem_index values new_indexed

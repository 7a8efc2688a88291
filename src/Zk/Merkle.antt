-- ===== src/Zk/Merkle.antt =====
-- zk/merkle/merkle.go: the incremental sparse Merkle tree over a map-backed node store. The hash
-- of two children (`poseidon2.Hash` of zk/poseidon2) is the parameter `node`, any function of two
-- field elements, and the empty leaf, the field's 0, is the parameter `empty`.
pub mod Consistent
pub mod Paths
pub mod Writes
mod Tests
use earth_network_chain.Base.{
  ℕ, zero, suc, ◌+◌, ◌-◌, ◌/◌, ◌%◌, ◌^◌, List, [], ◌∷◌, Option, none, some, Bool, ◌&&◌, ltb, leb,
  ◌==◌, if◌then◌else◌, Result, ok, err, Error, tree_full, out_of_range,
}

-- `Depth` and `Capacity`.
abbrev pub depth : ℕ
depth = 32

abbrev pub capacity : ℕ
capacity = 2 ^ 32

-- `MemStore`: a map from (level, index) to a node, read by `Get`.
abbrev pub NodeStore : Type 0 → Type 0
NodeStore F = ℕ → ℕ → Option F

-- `MemStore.Set`.
abbrev pub store_set : {F : Type 0} → NodeStore F → ℕ → ℕ → F → NodeStore F
store_set s level index v l i = if l == level && i == index then some v else s l i

-- `index ^ 1`, the sibling's index.
abbrev pub sibling : ℕ → ℕ
sibling index = if index % 2 == 0 then index + 1 else index - 1

-- `Tree`.
pub record Tree (F : Type 0) : Type 0 where
  pub store : NodeStore F
  pub next : ℕ

-- `NewMem`.
abbrev pub new_mem : {F : Type 0} → Tree F
new_mem = record { store = λ l i. none; next = 0 }

-- `Size`.
abbrev pub size : {F : Type 0} → Tree F → ℕ
size t = t.next

module _ {F : Type 0} (node : F → F → F) (empty : F) where
  -- `Zero[i]`, the root of an empty subtree of height i.
  unfoldable pub zero_at : ℕ → F
  zero_at zero = empty
  zero_at (suc i) = node (zero_at i) (zero_at i)

  -- `Tree.node`: a node never written reads as the empty subtree's root.
  unfoldable pub node_at : NodeStore F → ℕ → ℕ → F
  node_at s level index = elim (s level index) [ none ↦ zero_at level | some v ↦ v ]

  -- `Root`, `Leaf`.
  abbrev pub root : Tree F → F
  root t = node_at t.store depth 0

  abbrev pub leaf : Tree F → ℕ → F
  leaf t index = node_at t.store 0 index

  -- The running node one level up: the node is the right child where the index is odd.
  abbrev pub parent : ℕ → F → F → F
  parent index cur sib = if index % 2 == 0 then node cur sib else node sib cur

  -- The loop of `set`, with `k` levels left.
  unfoldable pub set_loop : ℕ → ℕ → NodeStore F → ℕ → F → NodeStore F
  set_loop zero lvl s index cur = s
  set_loop (suc k) lvl s index cur =
      let up = parent index cur (node_at s lvl (sibling index)) in
      set_loop k (suc lvl) (store_set s (suc lvl) (index / 2) up) (index / 2) up

  -- `set`.
  unfoldable pub set_leaf : NodeStore F → ℕ → F → NodeStore F
  set_leaf s index v = set_loop depth 0 (store_set s 0 index v) index v

  -- `Append`: the new tree and the leaf's index.
  unfoldable pub append : Tree F → F → Result (Tree F × ℕ)
  append t v =
      if leb capacity t.next
      then err tree_full
      else ok (record { store = set_leaf t.store t.next v; next = t.next + 1 }, t.next)

  -- `Update`.
  unfoldable pub update : Tree F → ℕ → F → Result (Tree F)
  update t index v =
      if leb t.next index
      then err out_of_range
      else ok (record t { store = set_leaf t.store index v })

  -- The loop of `Path`: the siblings from `lvl` upward.
  unfoldable pub path_loop : ℕ → ℕ → NodeStore F → ℕ → List F
  path_loop zero lvl s index = []
  path_loop (suc k) lvl s index =
      node_at s lvl (sibling index) ∷ path_loop k (suc lvl) s (index / 2)

  -- `Path`.
  unfoldable pub path : Tree F → ℕ → Result (List F)
  path t index = if leb t.next index then err out_of_range else ok (path_loop depth 0 t.store index)

  -- The loop of `RootFromPath`, at level `lvl`.
  unfoldable pub root_loop : ℕ → F → ℕ → List F → F
  root_loop lvl cur index [] = cur
  root_loop lvl cur index (sib ∷ sibs) =
      root_loop (suc lvl) (parent (index / 2 ^ lvl) cur sib) index sibs

  -- `RootFromPath`.
  unfoldable pub root_from_path : F → ℕ → List F → F
  root_from_path v index sibs = root_loop 0 v index sibs

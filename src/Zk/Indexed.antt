-- ===== src/Zk/Indexed.antt =====
-- zk/indexed/indexed.go: the stake nullifier tree, a sorted linked list in the leaves of a zk/merkle
-- tree. A field element that is compared is its canonical integer, and the hash of a leaf
-- (`privacy.NFLeaf`) is the parameter `leaf_hash`. A read of the store that fails is not modelled.

pub mod Neighbours
pub mod Linked
pub mod Insert
pub mod Absence
pub mod Verify
pub mod Rebuild
pub mod Memory
mod Tests
use earth_network_chain.Base.{
  ℕ, zero, suc, ◌<◌, ◌≤◌, ◌≡◌, Bool, true, false, ◌&&◌, ◌||◌, ltb, leb, ◌==◌, if◌then◌else◌, Option,
  none, some, List, [], ◌∷◌, Result, ok, err, fail_if, ◌>>=◌, ◌>>◌, tree_full, value_exists,
  value_zero,
}
use earth_network_chain.Zk.Merkle.{
  capacity, depth, Tree, new_mem, root, append, update, path, root_from_path, zero_at,
}

-- `Index`: an index of values, ordered by value.
pub record Index : Type 1 where
  pub State : Type 0
  pub get : ℕ → State → Option ℕ
  pub below : ℕ → State → Option (ℕ × ℕ)
  pub above : ℕ → State → Option (ℕ × ℕ)
  pub put : ℕ → ℕ → State → State

-- What the comments of `Index` say of its methods, for a state that is `IsSound`.
pub record IsIndex (x : Index) : Type 1 where
  pub IsSound : x.State → Type 0
  pub put_sound : (v i : ℕ) (s : x.State) → IsSound s → x.get v s ≡ none → IsSound (x.put v i s)
  pub get_put :
      (u v i : ℕ) (s : x.State)
      → IsSound s
      → x.get v s ≡ none
      → x.get u (x.put v i s) ≡ (if u == v then some i else x.get u s)
  pub below_some :
      (v w i : ℕ) (s : x.State)
      → IsSound s
      → x.below v s ≡ some (w, i)
      → (x.get w s ≡ some i) × (w < v) × ((u j : ℕ) → x.get u s ≡ some j → u < v → u ≤ w)
  pub below_none :
      (v : ℕ) (s : x.State)
      → IsSound s
      → x.below v s ≡ none
      → (u j : ℕ) → x.get u s ≡ some j
      → v ≤ u
  pub above_some :
      (v w i : ℕ) (s : x.State)
      → IsSound s
      → x.above v s ≡ some (w, i)
      → (x.get w s ≡ some i) × (v < w) × ((u j : ℕ) → x.get u s ≡ some j → v < u → w ≤ u)
  pub above_none :
      (v : ℕ) (s : x.State)
      → IsSound s
      → x.above v s ≡ none
      → (u j : ℕ) → x.get u s ≡ some j
      → u ≤ v

-- `Leaf`.
pub record Leaf : Type 0 where
  pub value : ℕ
  pub next_value : ℕ
  pub next_index : ℕ

-- `Sentinel`.
abbrev pub sentinel : Leaf
sentinel = record { value = 0; next_value = 0; next_index = 0 }

-- `Witness`.
pub record Witness (F : Type 0) : Type 0 where
  pub low : Leaf
  pub index : ℕ
  pub siblings : List F

-- The comparisons of `Witness.Verify`.
abbrev pub in_gap : Leaf → ℕ → Bool
in_gap low v = ltb low.value v && (low.next_value == 0 || ltb v low.next_value)

module _ {F : Type 0} (node : F → F → F) (empty : F) where
  -- The siblings of leaf 0 where nothing else was written, `lvl` levels up.
  abbrev pub zeros : ℕ → ℕ → List F
  zeros zero lvl = []
  zeros (suc k) lvl = zero_at node empty lvl ∷ zeros k (suc lvl)

module _ {F : Type 0} (node : F → F → F) (empty : F) (leaf_hash : ℕ → ℕ → ℕ → F) where
  -- `Leaf.Hash`.
  abbrev pub hash : Leaf → F
  hash l = leaf_hash l.value l.next_value l.next_index

  -- `EmptyRoot`: the tree that the package's `init` builds.
  abbrev pub empty_root : Result F
  empty_root = append node empty new_mem (hash sentinel) >>= λ r. ok (root node empty (r.0))

  -- `Witness.Verify`, against a root that is equal to the recomputed one.
  pub record Verifies (w : Witness F) (v : ℕ) (r : F) : Type 0 where
    pub rooted : root_from_path node empty (hash w.low) w.index w.siblings ≡ r
    pub gap : in_gap w.low v ≡ true

module _ (x : Index) where
  open x use {State, get, below, above}

  -- The successor of a value, 0 at 0 for the largest.
  abbrev pub succ : ℕ → State → ℕ × ℕ
  succ v s = elim (above v s) [ none ↦ (0, 0) | some e ↦ e ]

  -- The predecessor of a value, or the sentinel.
  abbrev pub pred : ℕ → State → ℕ × ℕ
  pred v s = elim (below v s) [ none ↦ (0, 0) | some e ↦ e ]

  -- `neighbours`: the low leaf and its index.
  abbrev pub neighbours : ℕ → State → Leaf × ℕ
  neighbours v s = (
    record { value = (pred v s).0; next_value = (succ v s).0; next_index = (succ v s).1 },
    (pred v s).1,
  )

  -- `Tree`: the nodes, whose cursor is the leaf count, and the index.
  pub record IndexedTree (F : Type 0) : Type 0 where
    pub nodes : Tree F
    pub index : State

  -- `Size`.
  abbrev pub leaf_count : {F : Type 0} → IndexedTree F → ℕ
  leaf_count t = t.nodes.next

  -- `Has`.
  abbrev pub has_value : {F : Type 0} → ℕ → IndexedTree F → Bool
  has_value v t = elim (get v t.index) [ none ↦ false | some i ↦ true ]

module _ {F : Type 0} (node : F → F → F) (empty : F) (leaf_hash : ℕ → ℕ → ℕ → F) (x : Index) where
  open x use {put}

  -- `Root`.
  unfoldable pub indexed_root : IndexedTree x F → Result F
  indexed_root t =
      if leaf_count x t == 0 then empty_root node empty leaf_hash else ok (root node empty t.nodes)

  -- The nodes with the sentinel written, where nothing was.
  unfoldable pub seeded : Tree F → Result (Tree F)
  seeded nodes =
      if nodes.next == 0
      then (append node empty nodes (hash node empty leaf_hash sentinel) >>= λ r. ok (r.0))
      else ok nodes

  -- `Insert`: the tree and the leaf's index.
  unfoldable pub insert : ℕ → IndexedTree x F → Result (IndexedTree x F × ℕ)
  unfolding seeded
  insert v t = do
    fail_if (v == 0) value_zero
    fail_if (has_value x v t) value_exists
    nodes ← seeded t.nodes
    fail_if (leb capacity nodes.next) tree_full
    let (low, low_index) = neighbours x v t.index
    let idx = nodes.next
    updated ←
        update node empty nodes low_index
          (hash node empty leaf_hash (record low { next_value = v; next_index = idx }))
    appended ← append node empty updated (hash node empty leaf_hash (record low { value = v }))
    ok (record { nodes = appended.0; index = put v idx t.index }, idx)

  -- The path of a low leaf: the empty subtrees, where only the implicit sentinel is there.
  unfoldable pub low_path : IndexedTree x F → ℕ → Result (List F)
  low_path t low_index =
      if leaf_count x t == 0
      then ok (zeros node empty depth 0)
      else path node empty t.nodes low_index

  -- `NonMembership`.
  unfoldable pub non_membership : ℕ → IndexedTree x F → Result (Witness F)
  unfolding low_path
  non_membership v t = do
    fail_if (v == 0) value_zero
    fail_if (has_value x v t) value_exists
    siblings ← low_path t (neighbours x v t.index).1
    ok (record {
      low = (neighbours x v t.index).0;
      index = (neighbours x v t.index).1;
      siblings = siblings;
    })

  -- The loop of `Rebuild`.
  unfoldable pub insert_all : List ℕ → IndexedTree x F → Result (IndexedTree x F)
  unfolding insert
  insert_all [] t = ok t
  insert_all (v ∷ vs) t = insert v t >>= λ r. insert_all vs (r.0)

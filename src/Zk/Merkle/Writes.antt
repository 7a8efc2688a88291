-- ===== src/Zk/Merkle/Writes.antt =====
-- `Append` and `Update` of zk/merkle, and the tree's invariant.
use earth_network_chain.Base.{
  ℕ, ◌+◌, ◌≤◌, ◌≡◌, refl, inl, inr, ◌==◌, if◌then◌else◌, leb, Bool-cases, arith, Result, ok, err,
  tree_full, out_of_range,
}
use earth_network_chain.Zk.Merkle.{
  node_at, zero_at, depth, capacity, Tree, leaf, new_mem, append, update,
}
use earth_network_chain.Zk.Merkle.Consistent.{
  IsConsistent, set_leaf-IsConsistent, leaf-set_leaf, empty-IsConsistent,
}

module _ {F : Type 0} (node : F → F → F) (empty : F) where
  -- Every node is the hash of its children, the cursor is within the capacity, and the slots
  -- from the cursor on are empty.
  pub record IsTree (t : Tree F) : Type 0 where
    pub consistent : IsConsistent node empty depth t.store
    pub room : t.next ≤ capacity
    pub unused : (j : ℕ) → t.next ≤ j → leaf node empty t j ≡ empty

  -- The tree of `NewMem` is a tree in this sense.
  pub new_mem-IsTree : IsTree new_mem
  unfolding node_at zero_at
  new_mem-IsTree = record {
    consistent = empty-IsConsistent node empty;
    room = omega arith;
    unused = λ j le. refl;
  }

  -- What `Append` returns: refused at capacity, else the leaf at the cursor's old place, every
  -- other leaf unchanged, the cursor one on, and a tree again.
  abbrev pub Appends : Tree F → F → Result (Tree F × ℕ) → Type 0
  Appends t v (err e) = (e ≡ tree_full) × (t.next ≡ capacity)
  Appends t v (ok (t', index)) =
      IsTree t'
      × (index ≡ t.next)
      × (t'.next ≡ t.next + 1)
      × ((j : ℕ) → leaf node empty t' j ≡ (if j == index then v else leaf node empty t j))

  -- `Append` to a tree is refused exactly as full, at capacity; else the new leaf stands at the
  -- cursor's old place, which is the index returned, every other leaf is unchanged, the cursor is one
  -- on, and the result is a tree again.
  pub append-Appends : (t : Tree F) (v : F) → IsTree t → Appends t v (append node empty t v)
  unfolding append
  append-Appends t v h = elim (Bool-cases (leb capacity t.next)) [
    | inl full ↦ rw full (refl, ground (arith, h.room))
    | inr space ↦ rw space (
      record {
        consistent = set_leaf-IsConsistent node empty t.store t.next v h.consistent;
        room = ground arith;
        unused = λ j le. ground (arith, leaf-set_leaf node empty t.store t.next v j, h.unused j);
      },
      refl,
      refl,
      leaf-set_leaf node empty t.store t.next v,
    )
  ]

  -- What `Update` returns: refused at an index not yet appended, else that leaf overwritten,
  -- every other leaf and the cursor unchanged, and a tree again.
  abbrev pub Updates : Tree F → ℕ → F → Result (Tree F) → Type 0
  Updates t index v (err e) = (e ≡ out_of_range) × (t.next ≤ index)
  Updates t index v (ok t') =
      IsTree t'
      × (t'.next ≡ t.next)
      × ((j : ℕ) → leaf node empty t' j ≡ (if j == index then v else leaf node empty t j))

  -- `Update` of a tree is refused exactly as out of range, at an index that was not appended; else
  -- that leaf is overwritten, every other leaf and the cursor are unchanged, and the result is a tree
  -- again.
  pub update-Updates :
      (t : Tree F) (index : ℕ) (v : F) → IsTree t → Updates t index v (update node empty t index v)
  unfolding update
  update-Updates t index v h = elim (Bool-cases (leb t.next index)) [
    | inl out ↦ rw out (refl, ground arith)
    | inr inside ↦ rw inside (
      record {
        consistent = set_leaf-IsConsistent node empty t.store index v h.consistent;
        room = h.room;
        unused = λ j le. ground (arith, leaf-set_leaf node empty t.store index v j, h.unused j);
      },
      refl,
      leaf-set_leaf node empty t.store index v,
    )
  ]

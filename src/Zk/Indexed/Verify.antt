-- ===== src/Zk/Indexed/Verify.antt =====
-- `Witness.Verify` of zk/indexed: what a witness that it accepts says of the index.
use earth_network_chain.Base.{
  ℕ, ◌<◌, ◌≤◌, ◌≡◌, ◌⊎◌, ◌↔◌, ◌&&◌, Bool, refl, sym, subst, ◌∙◌, true, false, leb, ◌==◌, ==_iff,
  none, arith, Bool-cases, Option-cases, inl, inr, ok, length,
}
use earth_network_chain.Zk.Merkle.{capacity, depth, Tree, root, leaf}
use earth_network_chain.Zk.Merkle.Paths.{Collides, root_from_path_binds}
use earth_network_chain.Zk.Indexed.{
  Index, IsIndex, IndexedTree, Witness, Verifies, succ, hash, in_gap, has_value, indexed_root,
}
use earth_network_chain.Zk.Indexed.Neighbours.{Holds}
use earth_network_chain.Zk.Indexed.Linked.{IsLinked}
use earth_network_chain.Zk.Indexed.Insert.{IsIndexed}

module _ (x : Index) (laws : IsIndex x) where
  open x use {State, get}

  -- Nothing held lies strictly between a value and its successor.
  gap_empty :
      (u v : ℕ) (s : State)
      → laws.IsSound s
      → in_gap (record { value = u; next_value = (succ x u s).0; next_index = (succ x u s).1 }) v
        ≡ true
      → get v s ≡ none
  gap_empty u v s sound g = elim (Option-cases (get v s)) [
    | inl nothing ↦ nothing
    | inr (j, there) ↦ absurd (elim (Option-cases (x.above u s)) [
      | inl none_above ↦ omega (arith, over, laws.above_none u s sound none_above v j there)
      | inr ((w, i), found) ↦
          let (e, lt, least) = laws.above_some u w i s sound found in
          let g' = rw (found, succ) at g in
          let below : v < w = ground (arith, g', lt) in omega (arith, least v j there over)
    ])
  ]
    where
      over : u < v
      over = ground (arith, g)

module _ {F : Type 0} (node : F → F → F) (empty : F) (leaf_hash : ℕ → ℕ → ℕ → F) (x : Index)
    (laws : IsIndex x) where
  open x use {State, get}

  -- What a witness shows that is accepted and lies: a collision of the hash of two nodes on its path,
  -- a leaf that hashes to the empty leaf, at an index the tree has not filled, or another leaf than
  -- the tree's at its index, with the same hash.
  abbrev pub IsForged : Witness F → Tree F → State → Type 0
  IsForged w nodes s =
      Collides node empty 0 nodes.store w.index (hash node empty leaf_hash w.low) w.siblings
      ⊎ ((nodes.next ≤ w.index) × (hash node empty leaf_hash w.low ≡ empty))
      ⊎ ((u : ℕ) × Holds x laws s u w.index
          × (hash node empty leaf_hash w.low ≡ leaf_hash u (succ x u s).0 (succ x u s).1)
          × ¬ (
              (w.low.value ≡ u)
              × (w.low.next_value ≡ (succ x u s).0)
              × (w.low.next_index ≡ (succ x u s).1)))

  -- The value that the witness's leaf is for.
  leaf_value :
      (nodes : Tree F) (s : State)
      → IsLinked node empty leaf_hash x laws nodes s
      → (i : ℕ) → i < nodes.next
      → (u : ℕ) × Holds x laws s u i
  leaf_value nodes s h i within = elim (Bool-cases (i == 0)) [
    | inl first ↦ (0, inr (refl, (==_iff i 0).0 first))
    | inr later ↦ let (u, there) = h.owner i (ground arith) (ground arith) in (u, inl there)
  ]

  bound_sound :
      (w : Witness F) (v : ℕ) (nodes : Tree F) (s : State)
      → IsLinked node empty leaf_hash x laws nodes s
      → in_gap w.low v ≡ true
      → hash node empty leaf_hash w.low ≡ leaf node empty nodes w.index
      → (get v s ≡ none) ⊎ IsForged w nodes s
  bound_sound w v nodes s h gap bound = elim (Bool-cases (leb nodes.next w.index)) [
    | inl out ↦ inr (inr (inl (ground arith, bound ∙ h.tree.unused w.index (ground arith))))
    | inr within ↦
        let (u, held) = leaf_value nodes s h w.index (ground arith) in
        elim (Bool-cases (w.low.value == u && w.low.next_value == (succ x u s).0)) [
          | inl equal ↦
              let eu : w.low.value ≡ u = ground arith in
              let en : w.low.next_value ≡ (succ x u s).0 = ground arith in
              inl (gap_empty x laws u v s h.sound (ground (arith, gap, eu, en)))
          | inr differ ↦ inr (
              inr (
                inr (
                  u,
                  held,
                  bound ∙ h.linked u w.index held,
                  λ all. ground (arith, differ, all.0, all.1),
                )))
        ]
  ]

  module _ (same : F → F → Bool) (same_iff : (a b : F) → (same a b ≡ true) ↔ (a ≡ b)) where
    linked_sound :
        (w : Witness F) (v : ℕ) (nodes : Tree F) (s : State)
        → IsLinked node empty leaf_hash x laws nodes s
        → w.index < capacity
        → length w.siblings ≡ depth
        → Verifies node empty leaf_hash w v (root node empty nodes)
        → (get v s ≡ none) ⊎ IsForged w nodes s
    linked_sound w v nodes s h inside len ver =
        elim (root_from_path_binds node empty same same_iff nodes (hash node empty leaf_hash w.low)
          w.index w.siblings h.tree.consistent inside len ver.rooted) [
            | inl bound ↦ bound_sound w v nodes s h ver.gap bound
            | inr collides ↦ inr (inl collides)
          ]

    -- A witness of the tree's depth that `Verify` accepts for a value against the root of a tree shows
    -- that the value is not in the tree, whoever made the witness, or else it shows a collision: of two
    -- nodes on its path, of its leaf with the empty one at an index that is not filled, or of its leaf
    -- with another one that the tree holds at its index; for any hashes, and nodes with a test of
    -- equality.
    pub verify_sound :
        (w : Witness F) (v : ℕ) (t : IndexedTree x F) (r : F)
        → IsIndexed node empty leaf_hash x laws t
        → indexed_root node empty leaf_hash x t ≡ ok r
        → w.index < capacity
        → length w.siblings ≡ depth
        → Verifies node empty leaf_hash w v r
        → (has_value x v t ≡ false) ⊎ IsForged w t.nodes t.index
    unfolding indexed_root
    verify_sound w v t r (inl blank) e inside len ver = inl (rw (blank.nothing v, has_value) refl)
    verify_sound w v t r (inr h) e inside len ver =
        let no : (t.nodes.next == 0) ≡ false = ground (arith, h.seeded) in
        let e' = rw no at e in
        let root_r : root node empty t.nodes ≡ r = cc in
        elim (linked_sound w v t.nodes t.index h inside len
          (subst (λ z. Verifies node empty leaf_hash w v z) (sym root_r) ver)) [
            | inl absent ↦ inl (rw (absent, has_value) refl)
            | inr forged ↦ inr forged
          ]

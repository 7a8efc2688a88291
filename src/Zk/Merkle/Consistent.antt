-- ===== src/Zk/Merkle/Consistent.antt =====
-- The nodes of zk/merkle's store and the hashes of their children.
use earth_network_chain.Base.{
  ℕ, zero, suc, ◌+◌, ◌*◌, ◌/◌, ◌<◌, ◌≤◌, ◌≡◌, refl, none, ◌&&◌, ◌==◌, if◌then◌else◌, arith, ◌∙◌,
}
use earth_network_chain.Zk.Merkle.{
  depth, NodeStore, store_set, sibling, zero_at, node_at, parent, set_loop, set_leaf,
}

module _ {F : Type 0} (node : F → F → F) (empty : F) where
  -- The hash of the two children of a node.
  abbrev pub children : NodeStore F → ℕ → ℕ → F
  children s l i = node (node_at node empty s l (2 * i)) (node_at node empty s l (2 * i + 1))

  -- Each node below the root level is the hash of its children.
  abbrev pub IsConsistent : ℕ → NodeStore F → Type 0
  IsConsistent d s = (l i : ℕ) → l < d → node_at node empty s (suc l) i ≡ children s l i

  -- The same but for the parent of the nodes that the loop of `set` is about to repair.
  abbrev pub IsConsistentBut : ℕ → ℕ → ℕ → NodeStore F → Type 0
  IsConsistentBut d lvl j s =
      (l i : ℕ) → l < d → ¬ ((l ≡ lvl) × (i ≡ j)) → node_at node empty s (suc l) i ≡ children s l i

  pub node_at-store_set :
      (s : NodeStore F) (l i l' i' : ℕ) (v : F)
      → node_at node empty (store_set s l i v) l' i'
        ≡ (if l' == l && i' == i then v else node_at node empty s l' i')
  unfolding node_at
  node_at-store_set s l i l' i' v = ground arith

  -- The running node is the hash of the two children at the next index.
  pub parent-eq-children :
      (s : NodeStore F) (lvl index : ℕ)
      → parent node empty index
          (node_at node empty s lvl index)
          (node_at node empty s lvl (sibling index))
        ≡ children s lvl (index / 2)
  parent-eq-children s lvl index = ground arith

  step_But :
      (s : NodeStore F) (d lvl index : ℕ) (up : F)
      → up ≡ children s lvl (index / 2)
      → IsConsistentBut d lvl (index / 2) s
      → IsConsistentBut d (suc lvl) (index / 2 / 2) (store_set s (suc lvl) (index / 2) up)
  step_But s d lvl index up e h l i lt ne = ground (
    arith,
    node_at-store_set s (suc lvl) (index / 2) (suc l) i up,
    node_at-store_set s (suc lvl) (index / 2) l (2 * i) up,
    node_at-store_set s (suc lvl) (index / 2) l (2 * i + 1) up,
    h l i lt,
  )

  set_loop-IsConsistent :
      (d k lvl : ℕ) (s : NodeStore F) (index : ℕ) (cur : F)
      → d ≡ lvl + k
      → node_at node empty s lvl index ≡ cur
      → IsConsistentBut d lvl (index / 2) s
      → IsConsistent d (set_loop node empty k lvl s index cur)
  unfolding set_loop
  set_loop-IsConsistent d zero lvl s index cur e ec h = λ l i lt. h l i lt (λ p. omega (arith, p.0))
  set_loop-IsConsistent d (suc k) lvl s index cur e ec h =
      set_loop-IsConsistent d k (suc lvl) (store_set s (suc lvl) (index / 2) up) (index / 2) up
        (omega arith)
        (ground (arith, node_at-store_set s (suc lvl) (index / 2) (suc lvl) (index / 2) up))
        (step_But s d lvl index up (ground (arith, parent-eq-children s lvl index)) h)
    where
      up : F
      up = parent node empty index cur (node_at node empty s lvl (sibling index))

  -- The loop writes above its level only.
  set_loop_below :
      (k lvl : ℕ) (s : NodeStore F) (index : ℕ) (cur : F) (l i : ℕ)
      → l ≤ lvl
      → node_at node empty (set_loop node empty k lvl s index cur) l i ≡ node_at node empty s l i
  unfolding set_loop
  set_loop_below zero lvl s index cur l i h = refl
  set_loop_below (suc k) lvl s index cur l i h =
      set_loop_below k (suc lvl) (store_set s (suc lvl) (index / 2) up) (index / 2) up l i
        (omega arith)
      ∙ ground (arith, node_at-store_set s (suc lvl) (index / 2) l i up)
    where
      up : F
      up = parent node empty index cur (node_at node empty s lvl (sibling index))

  pub set_leaf-IsConsistent :
      (s : NodeStore F) (index : ℕ) (v : F)
      → IsConsistent depth s
      → IsConsistent depth (set_leaf node empty s index v)
  unfolding set_leaf
  set_leaf-IsConsistent s index v h =
      set_loop-IsConsistent depth depth 0 (store_set s 0 index v) index v (omega arith)
        (ground (arith, node_at-store_set s 0 index 0 index v))
        (λ l i lt ne. ground (
          arith,
          node_at-store_set s 0 index (suc l) i v,
          node_at-store_set s 0 index l (2 * i) v,
          node_at-store_set s 0 index l (2 * i + 1) v,
          h l i lt,
        ))

  -- A write of one leaf is a write of that leaf.
  pub leaf-set_leaf :
      (s : NodeStore F) (index : ℕ) (v : F) (j : ℕ)
      → node_at node empty (set_leaf node empty s index v) 0 j
        ≡ (if j == index then v else node_at node empty s 0 j)
  unfolding set_leaf
  leaf-set_leaf s index v j =
      set_loop_below depth 0 (store_set s 0 index v) index v 0 j (omega arith)
      ∙ ground (arith, node_at-store_set s 0 index 0 j v)

  -- The tree with nothing written is consistent: `Zero[i+1] = H(Zero[i], Zero[i])`.
  pub empty-IsConsistent : IsConsistent depth (λ l i. none)
  unfolding node_at zero_at
  empty-IsConsistent l i h = refl

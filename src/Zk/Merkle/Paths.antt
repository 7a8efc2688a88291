-- ===== src/Zk/Merkle/Paths.antt =====
-- `Path` and `RootFromPath` of zk/merkle.
use native.Mathlib.Nat.{div-div-eq-div-mul, pow-suc, div-eq_of_lt}
use earth_network_chain.Base.{
  ℕ, zero, suc, ◌+◌, ◌/◌, ◌^◌, ◌<◌, ◌≤◌, ◌≡◌, refl, sym, ap, Bool, true, ◌⊎◌, ◌↔◌, inl, inr,
  Bool-cases, arith, ◌∙◌, List, [], ◌∷◌, length, ok,
}
use earth_network_chain.Zk.Merkle.{
  depth, capacity, NodeStore, Tree, root, leaf, sibling, node_at, parent, path_loop, path,
  root_loop, root_from_path,
}
use earth_network_chain.Zk.Merkle.Consistent.{IsConsistent, parent-eq-children}

-- Shifting right by one more level.
shift_once : (i lvl : ℕ) → i / 2 ^ lvl / 2 ≡ i / 2 ^ suc lvl
shift_once i lvl = div-div-eq-div-mul i (2 ^ lvl) 2 ∙ ap (λ t. i / t) (sym (pow-suc 2 lvl))

module _ {F : Type 0} (node : F → F → F) (empty : F) where
  length-path_loop :
      (k lvl : ℕ) (s : NodeStore F) (index : ℕ) → length (path_loop node empty k lvl s index) ≡ k
  unfolding path_loop
  length-path_loop zero lvl s index = refl
  length-path_loop (suc k) lvl s index = ap suc (length-path_loop k (suc lvl) s (index / 2))

  -- The running node of `RootFromPath` is the tree's own node at each level.
  root_loop-path_loop :
      (d k lvl : ℕ) (s : NodeStore F) (i j : ℕ) (cur : F)
      → d ≡ lvl + k
      → IsConsistent node empty d s
      → j ≡ i / 2 ^ lvl
      → cur ≡ node_at node empty s lvl j
      → root_loop node empty lvl cur i (path_loop node empty k lvl s j)
        ≡ node_at node empty s d (i / 2 ^ d)
  unfolding path_loop root_loop
  root_loop-path_loop d zero lvl s i j cur e h ej ec =
      let e' : d ≡ lvl = omega arith in rw (e', ← ej) ec
  root_loop-path_loop d (suc k) lvl s i j cur e h ej ec =
      root_loop-path_loop d k (suc lvl) s i (j / 2) _ (omega arith) h
        (ap (λ t. t / 2) ej ∙ shift_once i lvl)
        (rw (← ej, ec) (parent-eq-children node empty s lvl j ∙ sym (h lvl (j / 2) (omega arith))))

  path-ok :
      (t : Tree F) (i : ℕ) (sibs : List F)
      → path node empty t i ≡ ok sibs
      → (i < t.next) × (sibs ≡ path_loop node empty depth 0 t.store i)
  unfolding path
  path-ok t i sibs e = ground arith

  -- A path that `Path` returns has one sibling for each level, and `RootFromPath` takes the leaf
  -- and the path to the root of the tree.
  pub root_from_path-path :
      (t : Tree F) (i : ℕ) (sibs : List F)
      → IsConsistent node empty depth t.store
      → t.next ≤ capacity
      → path node empty t i ≡ ok sibs
      → (length sibs ≡ depth)
        × (root_from_path node empty (leaf node empty t i) i sibs ≡ root node empty t)
  root_from_path-path t i sibs h room e =
      let (inside, es) = path-ok t i sibs e in
      let low : i / 2 ^ depth ≡ 0 = div-eq_of_lt (omega arith) in
      rw es (
        length-path_loop depth 0 t.store i,
        unfold root_from_path in
            root_loop-path_loop depth depth 0 t.store i i _ (omega arith) h (omega arith) refl
            ∙ ap (node_at node empty t.store depth) low,
      )

  -- Where two pairs of children hash to the same parent: somewhere on the way up from a level, the
  -- running node and its sibling are not the tree's own two nodes, and hash to what those hash to.
  abbrev pub Collides : ℕ → NodeStore F → ℕ → F → List F → Type 0
  Collides lvl s i cur [] = ⊥
  Collides lvl s i cur (sib ∷ sibs) =
      ((parent node empty (i / 2 ^ lvl) cur sib
          ≡ parent node empty (i / 2 ^ lvl) (node_at node empty s lvl (i / 2 ^ lvl))
              (node_at node empty s lvl (sibling (i / 2 ^ lvl))))
        × ¬ (
            (cur ≡ node_at node empty s lvl (i / 2 ^ lvl))
            × (sib ≡ node_at node empty s lvl (sibling (i / 2 ^ lvl)))))
      ⊎ Collides (suc lvl) s i (parent node empty (i / 2 ^ lvl) cur sib) sibs

  module _ (same : F → F → Bool) (same_iff : (a b : F) → (same a b ≡ true) ↔ (a ≡ b)) where
    root_loop_binds :
        (d : ℕ) (sibs : List F) (lvl : ℕ) (s : NodeStore F) (i : ℕ) (cur : F)
        → d ≡ lvl + length sibs
        → IsConsistent node empty d s
        → root_loop node empty lvl cur i sibs ≡ node_at node empty s d (i / 2 ^ d)
        → (cur ≡ node_at node empty s lvl (i / 2 ^ lvl)) ⊎ Collides lvl s i cur sibs
    unfolding root_loop
    root_loop_binds d [] lvl s i cur e h p = let e' : lvl ≡ d = omega arith in inl (rw e' p)
    root_loop_binds d (sib ∷ sibs) lvl s i cur e h p =
        elim (root_loop_binds d sibs (suc lvl) s i _ (omega arith) h p) [
          | inr above ↦ inr (inr above)
          | inl agrees ↦
              let own = node_at node empty s lvl (i / 2 ^ lvl) in
              let hashed : parent node empty (i / 2 ^ lvl) cur sib
                  ≡ parent node empty (i / 2 ^ lvl) own
                      (node_at node empty s lvl (sibling (i / 2 ^ lvl))) =
                agrees
                ∙ rw (← shift_once i lvl) (
                    h lvl (i / 2 ^ lvl / 2) (omega arith)
                    ∙ sym (parent-eq-children node empty s lvl (i / 2 ^ lvl))) in
              elim (Bool-cases (same cur own)) [
                | inl equal ↦ inl ((same_iff cur own).0 equal)
                | inr differ ↦ inr (inl (hashed, λ both. let t = (same_iff cur own).1 both.0 in cc))
              ]
        ]

    -- Whatever leaf and path of full length `RootFromPath` takes to the root at an index of the tree,
    -- the leaf is the one the tree holds, or else the path shows a collision: at one of its levels two
    -- nodes that are not the tree's two have the same hash; for any hash, and nodes with a test of
    -- equality.
    pub root_from_path_binds :
        (t : Tree F) (v : F) (i : ℕ) (sibs : List F)
        → IsConsistent node empty depth t.store
        → i < capacity
        → length sibs ≡ depth
        → root_from_path node empty v i sibs ≡ root node empty t
        → (v ≡ leaf node empty t i) ⊎ Collides 0 t.store i v sibs
    unfolding root_from_path
    root_from_path_binds t v i sibs h inside len p =
        let low : i / 2 ^ depth ≡ 0 = div-eq_of_lt (omega arith) in
        let start : i / 2 ^ 0 ≡ i = omega arith in
        elim (root_loop_binds depth sibs 0 t.store i v (omega (arith, len)) h
          (p ∙ ap (node_at node empty t.store depth) (sym low))) [
            | inl agrees ↦ inl (agrees ∙ ap (node_at node empty t.store 0) start)
            | inr collides ↦ inr collides
          ]

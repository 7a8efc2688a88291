-- ===== src/Zk/Indexed/Absence.antt =====
-- `NonMembership` and `Witness.Verify` of zk/indexed against the index: the prover's side and the
-- verifier's.
use native.Mathlib.Nat.{zero-div}
use earth_network_chain.Base.{
  ℕ, zero, suc, ◌+◌, ◌/◌, ◌^◌, ◌≤◌, ◌<◌, ◌≡◌, ◌≢◌, refl, sym, subst, ap, ◌∙◌, true, false, ltb,
  ◌==◌, ==_iff, Option, none, some, arith, Bool-cases, Option-cases, inl, inr, ◌⊎◌, Result, Error,
  ok, err, ◌>>=◌, value_exists, value_zero, List, length,
}
use earth_network_chain.Zk.Merkle.{
  depth, NodeStore, Tree, root, leaf, node_at, zero_at, store_set, set_loop, set_leaf, parent,
  append, path, root_loop, root_from_path,
}
use earth_network_chain.Zk.Merkle.Paths.{root_from_path-path}
use earth_network_chain.Zk.Indexed.{
  Index, IsIndex, IndexedTree, Witness, Verifies, succ, pred, neighbours, hash, sentinel, zeros,
  in_gap, has_value, indexed_root, low_path, non_membership,
}
use earth_network_chain.Zk.Indexed.Neighbours.{Holds, pred_lem, above-greatest, above-least}
use earth_network_chain.Zk.Indexed.Linked.{IsLinked, held-lt}
use earth_network_chain.Zk.Indexed.Insert.{IsBlank, IsIndexed}

module _ {F : Type 0} (node : F → F → F) (empty : F) where
  path-outside : (t : Tree F) (i : ℕ) (why : Error) → path node empty t i ≡ err why → t.next ≤ i
  unfolding path
  path-outside t i why e = ground arith

  node_at-none :
      (s : NodeStore F) (l i : ℕ) → s l i ≡ none → node_at node empty s l i ≡ zero_at node empty l
  unfolding node_at
  node_at-none s l i e = rw (e, node_at) refl

  node_at-some : (s : NodeStore F) (l i : ℕ) (c : F) → s l i ≡ some c → node_at node empty s l i ≡ c
  unfolding node_at
  node_at-some s l i c e = rw (e, node_at) refl

  -- The tree with only leaf 0 written: every sibling on the way up is an empty subtree.
  root_loop-zeros :
      (d k lvl : ℕ) (s : NodeStore F) (cur : F)
      → d ≡ lvl + k
      → ((l : ℕ) → s l 1 ≡ none)
      → node_at node empty s lvl 0 ≡ cur
      → root_loop node empty lvl cur 0 (zeros node empty k lvl)
        ≡ node_at node empty (set_loop node empty k lvl s 0 cur) d 0
  unfolding root_loop set_loop
  root_loop-zeros d zero lvl s cur e h c = let same : d ≡ lvl = omega arith in rw same (sym c)
  root_loop-zeros d (suc k) lvl s cur e h c =
      ap (λ c. root_loop node empty (suc lvl) c 0 (zeros node empty k (suc lvl))) left_child
      ∙ root_loop-zeros d k (suc lvl) (climbed (zero_at node empty lvl))
          (node cur (zero_at node empty lvl)) (omega arith) (λ l. ground (arith, h l))
          (node_at-some _ (suc lvl) 0 _ (ground arith))
      ∙ ap
          (λ y. node_at node empty (set_loop node empty k (suc lvl) (climbed y) 0 (node cur y)) d 0)
          (sym empty_sibling)
    where
      climbed : F → NodeStore F
      climbed y = store_set s (suc lvl) 0 (node cur y)

      left_child :
          parent node empty (0 / 2 ^ lvl) cur (zero_at node empty lvl)
          ≡ node cur (zero_at node empty lvl)
      left_child = ap (λ i. parent node empty i cur (zero_at node empty lvl)) (zero-div (2 ^ lvl))

      empty_sibling : node_at node empty s lvl 1 ≡ zero_at node empty lvl
      empty_sibling = node_at-none s lvl 1 (h lvl)

  -- The root over leaf 0 alone.
  root_from_path-zeros :
      (v : F)
      → root_from_path node empty v 0 (zeros node empty depth 0)
        ≡ node_at node empty (set_leaf node empty (λ l i. none) 0 v) depth 0
  unfolding root_from_path set_leaf
  root_from_path-zeros v =
      root_loop-zeros depth depth 0 _ v (omega arith) (λ l. ground arith)
        (node_at-some _ 0 0 v (ground arith))

module _ {F : Type 0} (node : F → F → F) (empty : F) (leaf_hash : ℕ → ℕ → ℕ → F) (x : Index)
    (laws : IsIndex x) where
  open x use {State, get}

  -- The low leaf's successor is the successor of the value that is not there.
  succ-pred :
      (v : ℕ) (s : State)
      → laws.IsSound s
      → 0 < v
      → get v s ≡ none
      → succ x (pred x v s).0 s ≡ succ x v s
  succ-pred v s sound pos fresh =
      let (held, lt, most) = pred_lem x laws v s sound pos in
      elim (Option-cases (x.above v s)) [
        | inl nothing ↦
            rw
              (
                above-greatest x laws (pred x v s).0 s sound (λ z j e.
                    most z j (inl e) (below_v z j e (laws.above_none v s sound nothing z j e))),
                nothing,
                succ,
              )
              refl
        | inr ((w, i), found) ↦
            let (e, over, least) = laws.above_some v w i s sound found in
            rw
              (
                above-least x laws (pred x v s).0 w i s sound e (omega arith) (λ z j ez lz.
                    elim (Bool-cases (ltb v z)) [
                      | inl gt ↦ least z j ez (ground arith)
                      | inr le ↦
                          absurd (omega (arith, most z j (inl ez) (below_v z j ez (ground arith))))
                    ]),
                found,
                succ,
              )
              refl
      ]
    where
      below_v : (z j : ℕ) → get z s ≡ some j → z ≤ v → z < v
      below_v z j e le = let ne : z ≢ v = λ q. taken z j q e in omega arith
        where
          taken : (z j : ℕ) → z ≡ v → get z s ≡ some j → ⊥
          taken z j q f = cc

  -- What `NonMembership` returns: an error exactly for the sentinel's value or a value that is there;
  -- else the value is not there, and the witness verifies against the root that `Root` returns.
  abbrev pub Proves : ℕ → IndexedTree x F → Result (Witness F) → Type 0
  Proves v t (err e) =
      ((e ≡ value_zero) × (v ≡ 0)) ⊎ ((e ≡ value_exists) × (has_value x v t ≡ true))
  Proves v t (ok w) =
      (has_value x v t ≡ false)
      × (r : F) × (indexed_root node empty leaf_hash x t ≡ ok r)
      × (length w.siblings ≡ depth)
      × Verifies node empty leaf_hash w v r

  -- The witness of a value over its siblings.
  abbrev witness_of : ℕ → IndexedTree x F → List F → Witness F
  witness_of v t siblings = record {
    low = (neighbours x v t.index).0;
    index = (neighbours x v t.index).1;
    siblings = siblings;
  }

  -- Nothing is next to a value in an empty index.
  blank-neighbours :
      (v : ℕ) (t : IndexedTree x F)
      → IsBlank node empty leaf_hash x laws t
      → neighbours x v t.index ≡ (sentinel, 0)
  blank-neighbours v t h =
      rw
        (
          nothing_below (x.below v t.index) (λ w i e. (laws.below_some v w i t.index h.sound e).0),
          nothing_below (x.above v t.index) (λ w i e. (laws.above_some v w i t.index h.sound e).0),
          pred,
          succ,
        )
        refl
    where
      nothing_below :
          (o : Option (ℕ × ℕ)) → ((w i : ℕ) → o ≡ some (w, i) → get w t.index ≡ some i) → o ≡ none
      nothing_below none f = refl
      nothing_below (some (w, i)) f = cc (f w i refl, h.nothing w)

  -- The low leaf and its successor enclose a value that is not there.
  linked_gap : (v : ℕ) (s : State) → laws.IsSound s → 0 < v → in_gap (neighbours x v s).0 v ≡ true
  linked_gap v s sound pos =
      let (held, lt, most) = pred_lem x laws v s sound pos in
      elim (Option-cases (x.above v s)) [
        | inl nothing ↦ rw (nothing, succ) ground (arith, lt)
        | inr ((w, i), found) ↦
            let (e, over, least) = laws.above_some v w i s sound found in
            rw (found, succ) ground (arith, lt, over)
      ]

  blank-Proves :
      (v : ℕ) (t : IndexedTree x F)
      → IsBlank node empty leaf_hash x laws t
      → 0 < v
      → Proves v t (ok (witness_of v t (zeros node empty depth 0)))
  unfolding indexed_root append
  blank-Proves v t h pos =
      subst
        (λ n.
          Proves v t (ok (record { low = n.0; index = n.1; siblings = zeros node empty depth 0 })))
        (sym (blank-neighbours v t h))
        (
          rw (h.nothing v, has_value) refl,
          root node empty (record {
            store = set_leaf node empty (λ l i. none) 0 (hash node empty leaf_hash sentinel);
            next = 1;
          }),
          (let yes : (t.nodes.next == 0) ≡ true = ground (arith, h.unseeded) in rw yes refl),
          refl,
          record {
            rooted = root_from_path-zeros node empty (hash node empty leaf_hash sentinel);
            gap = ground arith;
          },
        )

  linked-Proves :
      (v : ℕ) (t : IndexedTree x F)
      → IsLinked node empty leaf_hash x laws t.nodes t.index
      → 0 < v
      → get v t.index ≡ none
      → Proves v t (
          path node empty t.nodes (pred x v t.index).1 >>= λ siblings. ok (witness_of v t siblings))
  unfolding indexed_root
  linked-Proves v t h pos fresh = go (path node empty t.nodes (pred x v t.index).1) refl
    where
      held : Holds x laws t.index (pred x v t.index).0 (pred x v t.index).1
      held = (pred_lem x laws v t.index h.sound pos).0

      inside : (pred x v t.index).1 < t.nodes.next
      inside =
          held-lt node empty leaf_hash x laws t.nodes t.index h (pred x v t.index).0
            (pred x v t.index).1 held

      low_leaf :
          leaf node empty t.nodes (pred x v t.index).1
          ≡ hash node empty leaf_hash (neighbours x v t.index).0
      low_leaf =
          h.linked (pred x v t.index).0 (pred x v t.index).1 held
          ∙ ap (λ e. leaf_hash (pred x v t.index).0 (e.0) (e.1))
              (succ-pred v t.index h.sound pos fresh)

      no : (t.nodes.next == 0) ≡ false
      no = ground (arith, h.seeded)

      go :
          (r : Result (List F))
          → path node empty t.nodes (pred x v t.index).1 ≡ r
          → Proves v t (r >>= λ siblings. ok (witness_of v t siblings))
      go (err why) e =
          absurd (omega (arith, inside, path-outside node empty t.nodes (pred x v t.index).1 why e))
      go (ok siblings) e =
          let (len, rooted) =
            root_from_path-path node empty t.nodes (pred x v t.index).1 siblings h.tree.consistent
              h.tree.room e in
          (
            rw (fresh, has_value) refl,
            root node empty t.nodes,
            rw no refl,
            len,
            record {
              rooted =
                  ap (λ c. root_from_path node empty c (pred x v t.index).1 siblings) (sym low_leaf)
                  ∙ rooted;
              gap = linked_gap v t.index h.sound pos;
            },
          )

  -- `NonMembership` of a tree in which every value's leaf holds its successor: the error for 0 or the
  -- one for a value that is there, each only then, and else a witness of the tree's depth that
  -- `Verify` accepts for the value against the root that `Root` returns.
  pub non_membership-Proves :
      (v : ℕ) (t : IndexedTree x F)
      → IsIndexed node empty leaf_hash x laws t
      → Proves v t (non_membership node empty leaf_hash x v t)
  unfolding non_membership low_path
  non_membership-Proves v t h = elim (Bool-cases (v == 0)) [
    | inl zero_given ↦ rw zero_given (inl (refl, (==_iff v 0).0 zero_given))
    | inr given ↦ rw given (elim (Option-cases (get v t.index)) [
      | inr there ↦ rw (there.1, has_value) (inr (refl, rw (there.1, has_value) refl))
      | inl fresh ↦
          rw (fresh, has_value)
            (elim h [
              | inl blank ↦
                  let yes : (t.nodes.next == 0) ≡ true = ground (arith, blank.unseeded) in
                  rw yes (blank-Proves v t blank (ground arith))
              | inr linked ↦
                  let no : (t.nodes.next == 0) ≡ false = ground (arith, linked.seeded) in
                  rw no (linked-Proves v t linked (ground arith) fresh)
            ])
    ])
  ]

-- ===== src/Zk/Indexed/Insert.antt =====
-- `Insert` and `Rebuild` of zk/indexed against a set of values.
use earth_network_chain.Base.{
  ℕ, ◌+◌, ◌≤◌, ◌<◌, ◌≡◌, refl, ◌∙◌, true, false, ◌||◌, leb, ◌==◌, ==_iff, ==_self, if◌then◌else◌,
  none, some, arith, Bool-cases, Option-cases, inl, inr, ◌⊎◌, Result, ok, err, fail_if, ◌>>=◌, ◌>>◌,
  tree_full, value_exists, value_zero,
}
use earth_network_chain.Zk.Merkle.{capacity, Tree, leaf, append, update}
use earth_network_chain.Zk.Merkle.Writes.{IsTree, Appends, append-Appends, Updates, update-Updates}
use earth_network_chain.Zk.Indexed.{
  Index, IsIndex, IndexedTree, succ, pred, hash, sentinel, has_value, seeded, insert,
}
use earth_network_chain.Zk.Indexed.Neighbours.{Holds, pred_lem, above-greatest}
use earth_network_chain.Zk.Indexed.Linked.{IsLinked, insert-IsLinked, held-lt}

-- The index that the next leaf takes at a cursor: 1 where the sentinel is still to be written.
abbrev pub first_free : ℕ → ℕ
first_free next = if next == 0 then 1 else next

module _ {F : Type 0} (node : F → F → F) (empty : F) (leaf_hash : ℕ → ℕ → ℕ → F) (x : Index)
    (laws : IsIndex x) where
  open x use {State, get, put}

  -- Nothing was inserted, not even the sentinel.
  pub record IsBlank (t : IndexedTree x F) : Type 0 where
    pub tree : IsTree node empty t.nodes
    pub sound : laws.IsSound t.index
    pub unseeded : t.nodes.next ≡ 0
    pub nothing : (u : ℕ) → get u t.index ≡ none

  abbrev pub IsIndexed : IndexedTree x F → Type 0
  IsIndexed t = IsBlank t ⊎ IsLinked node empty leaf_hash x laws t.nodes t.index

  -- What `seeded` returns: nodes that are linked, the sentinel written where it was missing.
  abbrev Seeds : IndexedTree x F → Result (Tree F) → Type 0
  Seeds t (err e) = ⊥
  Seeds t (ok nodes) =
      IsLinked node empty leaf_hash x laws nodes t.index
      × (nodes.next ≡ first_free t.nodes.next)
      × (capacity ≤ nodes.next → capacity ≤ t.nodes.next)

  seeded_blank :
      (t : IndexedTree x F) (r : Result (Tree F × ℕ))
      → IsBlank t
      → Appends node empty t.nodes (hash node empty leaf_hash sentinel) r
      → Seeds t (r >>= λ p. ok (p.0))
  seeded_blank t (err e) h (_, full) = absurd (omega (arith, h.unseeded))
  seeded_blank t (ok (nodes, index)) h (tree, at, next, leaves) = (
    record {
      tree = tree;
      sound = h.sound;
      seeded = omega (arith, h.unseeded);
      ranged = λ u i e. absurd (missing u i e);
      single = λ u w i e f. absurd (missing u i e);
      owner = λ i lo hi. absurd (omega (arith, h.unseeded));
      linked = first;
    },
    ground (arith, h.unseeded),
    λ le. absurd (omega (arith, h.unseeded)),
  )
    where
      missing : (u i : ℕ) → get u t.index ≡ some i → ⊥
      missing u i e = cc (h.nothing u)

      first :
          (u i : ℕ)
          → Holds x laws t.index u i
          → leaf node empty nodes i ≡ leaf_hash u (succ x u t.index).0 (succ x u t.index).1
      first u i (inl e) = absurd (missing u i e)
      first u i (inr (eu, ei)) =
          let ea : i ≡ index = omega (arith, h.unseeded) in
          let top : x.above 0 t.index ≡ none =
            above-greatest x laws 0 t.index h.sound (λ z j e. absurd (missing z j e)) in
          leaves i ∙ rw (ea, ==_self index, eu, top, succ) refl

  seeded-Seeds :
      (t : IndexedTree x F) → IsIndexed t → Seeds t (seeded node empty leaf_hash x t.nodes)
  unfolding seeded
  seeded-Seeds t (inl h) =
      let yes : (t.nodes.next == 0) ≡ true = ground (arith, h.unseeded) in
      rw yes (
        seeded_blank t (append node empty t.nodes (hash node empty leaf_hash sentinel)) h
          (append-Appends node empty t.nodes (hash node empty leaf_hash sentinel) h.tree))
  seeded-Seeds t (inr h) =
      let no : (t.nodes.next == 0) ≡ false = ground (arith, h.seeded) in
      rw no (h, rw no refl, λ le. le)

  -- What `Insert` returns: an error exactly for the sentinel's value, a value that is there or a full
  -- tree; else an indexed tree that holds the value too, and nothing else new.
  abbrev pub Inserts : ℕ → IndexedTree x F → Result (IndexedTree x F × ℕ) → Type 0
  Inserts v t (err e) =
      ((e ≡ value_zero) × (v ≡ 0))
      ⊎ ((e ≡ value_exists) × (has_value x v t ≡ true))
      ⊎ ((e ≡ tree_full) × (capacity ≤ t.nodes.next))
  Inserts v t (ok (t', index)) =
      IsIndexed t'
      × (0 < v)
      × (has_value x v t ≡ false)
      × (index ≡ first_free t.nodes.next)
      × (t'.nodes.next ≡ index + 1)
      × ((u : ℕ) → has_value x u t' ≡ (u == v || has_value x u t))

  -- The low leaf repointed, then the new leaf appended.
  module _ (v : ℕ) (t : IndexedTree x F) (nodes : Tree F)
      (h : IsLinked node empty leaf_hash x laws nodes t.index) (pos : 0 < v)
      (fresh : get v t.index ≡ none) (space : nodes.next < capacity)
      (free : nodes.next ≡ first_free t.nodes.next) where
    abbrev new_low : F
    new_low = leaf_hash (pred x v t.index).0 v nodes.next

    abbrev new_leaf : F
    new_leaf = leaf_hash v (succ x v t.index).0 (succ x v t.index).1

    grown :
        (updated : Tree F) (r : Result (Tree F × ℕ))
        → Updates node empty nodes (pred x v t.index).1 new_low (ok updated)
        → Appends node empty updated new_leaf r
        → Inserts v t
            (r >>= λ a. ok (record { nodes = a.0; index = put v nodes.next t.index }, nodes.next))
    grown updated (err e) (tree, next, _) (_, full) = absurd (omega arith)
    grown updated (ok (nodes', at)) (tree, next, low) (tree', ea, next', leaves) = (
      inr (
          insert-IsLinked node empty leaf_hash x laws nodes nodes' t.index v h pos fresh tree'
            (omega arith) (λ j. ground (arith, leaves j, low j))),
      pos,
      rw (fresh, has_value) refl,
      free,
      omega arith,
      λ u. held u,
    )
      where
        held :
            (u : ℕ)
            → has_value x u (record { nodes = nodes'; index = put v nodes.next t.index })
              ≡ (u == v || has_value x u t)
        held u = elim (Bool-cases (u == v)) [
          | inl same ↦ rw (laws.get_put u v nodes.next t.index h.sound fresh, same, has_value) refl
          | inr other ↦
              rw (laws.get_put u v nodes.next t.index h.sound fresh, other, has_value) refl
        ]

    insert_linked-Inserts : Inserts v t (
        update node empty nodes (pred x v t.index).1 new_low >>= λ updated.
        append node empty updated new_leaf >>= λ a.
        ok (record { nodes = a.0; index = put v nodes.next t.index }, nodes.next))
    insert_linked-Inserts =
        go (update node empty nodes (pred x v t.index).1 new_low)
          (update-Updates node empty nodes (pred x v t.index).1 new_low h.tree)
      where
        inside : (pred x v t.index).1 < nodes.next
        inside =
            held-lt node empty leaf_hash x laws nodes t.index h (pred x v t.index).0
              (pred x v t.index).1 (pred_lem x laws v t.index h.sound pos).0

        go :
            (r : Result (Tree F))
            → Updates node empty nodes (pred x v t.index).1 new_low r
            → Inserts v t (
                r >>= λ updated. append node empty updated new_leaf >>= λ a.
                ok (record { nodes = a.0; index = put v nodes.next t.index }, nodes.next))
        go (err e) (_, out) = absurd (omega (arith, inside))
        go (ok updated) done =
            grown updated (append node empty updated new_leaf) done
              (append-Appends node empty updated new_leaf done.0)

  insert_seeded :
      (v : ℕ) (t : IndexedTree x F)
      → 0 < v
      → get v t.index ≡ none
      → (r : Result (Tree F)) → Seeds t r
      → Inserts v t (
          r >>= λ nodes.
          fail_if (leb capacity nodes.next) tree_full
          >> (update node empty nodes
                (pred x v t.index).1
                (leaf_hash (pred x v t.index).0 v nodes.next)
              >>= λ updated.
                  append node empty updated (leaf_hash v (succ x v t.index).0 (succ x v t.index).1)
                  >>= λ a.
                      ok (record { nodes = a.0; index = put v nodes.next t.index }, nodes.next)))
  insert_seeded v t pos fresh (err e) h = absurd h
  insert_seeded v t pos fresh (ok nodes) h = elim (Bool-cases (leb capacity nodes.next)) [
    | inl full ↦ rw full (inr (inr (refl, h.2 (ground arith))))
    | inr space ↦ rw space (insert_linked-Inserts v t nodes h.0 pos fresh (ground arith) (h.1))
  ]

  -- `Insert`, on every branch: an error is the sentinel's value, a value that is there or a full tree,
  -- each exactly as reported; else the result is an indexed tree, its leaves one more than the index
  -- returned, that holds the new value and just what it held.
  pub insert-Inserts :
      (v : ℕ) (t : IndexedTree x F) → IsIndexed t → Inserts v t (insert node empty leaf_hash x v t)
  unfolding insert
  insert-Inserts v t h = elim (Bool-cases (v == 0)) [
    | inl zero_given ↦ rw zero_given (inl (refl, (==_iff v 0).0 zero_given))
    | inr given ↦ rw given (elim (Option-cases (get v t.index)) [
      | inr there ↦ rw (there.1, has_value) (inr (inl (refl, rw (there.1, has_value) refl)))
      | inl fresh ↦
          rw (fresh, has_value)
            (insert_seeded v t (ground arith) fresh (seeded node empty leaf_hash x t.nodes)
              (seeded-Seeds t h))
    ])
  ]

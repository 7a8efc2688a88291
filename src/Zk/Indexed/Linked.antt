-- ===== src/Zk/Indexed/Linked.antt =====
-- The invariant of zk/indexed's tree, and the step by which `Insert` keeps it: a new leaf appended and
-- the low leaf repointed.
use earth_network_chain.Base.{
  ℕ, ◌+◌, ◌<◌, ◌≡◌, ◌≢◌, refl, sym, subst, ap, ◌∙◌, false, ◌==◌, ==_iff, ==_self, if◌then◌else◌,
  none, some, arith, Bool-cases, inl, inr, ◌⊎◌,
}
use earth_network_chain.Zk.Merkle.{Tree, leaf}
use earth_network_chain.Zk.Merkle.Writes.{IsTree}
use earth_network_chain.Zk.Indexed.{Index, IsIndex, succ, pred}
use earth_network_chain.Zk.Indexed.Neighbours.{
  Holds, pred_lem, after_sound, get-after_self, get-after_ne, held_before, succ-after_low,
  succ-after_new, succ-after_other,
}

module _ {F : Type 0} (node : F → F → F) (empty : F) (leaf_hash : ℕ → ℕ → ℕ → F) (x : Index)
    (laws : IsIndex x) where
  open x use {State, get, put}

  -- The leaf of a value that the index holds, or of the sentinel.
  abbrev pub linked_leaf : State → ℕ → F
  linked_leaf s u = leaf_hash u (succ x u s).0 (succ x u s).1

  -- The nodes hold, at each value's index, the hash of the value and its successor, and nothing else.
  pub record IsLinked (nodes : Tree F) (s : State) : Type 0 where
    pub tree : IsTree node empty nodes
    pub sound : laws.IsSound s
    pub seeded : 0 < nodes.next
    pub ranged : (u i : ℕ) → get u s ≡ some i → (0 < u) × (0 < i) × (i < nodes.next)
    pub single : (u w i : ℕ) → get u s ≡ some i → get w s ≡ some i → u ≡ w
    pub owner : (i : ℕ) → 0 < i → i < nodes.next → (u : ℕ) × (get u s ≡ some i)
    pub linked : (u i : ℕ) → Holds x laws s u i → leaf node empty nodes i ≡ linked_leaf s u

  -- A held value stands at one index, below the cursor, and an index holds one value.
  module _ (nodes : Tree F) (s : State) (h : IsLinked nodes s) where
    pub held-lt : (u i : ℕ) → Holds x laws s u i → i < nodes.next
    held-lt u i (inl e) = (h.ranged u i e).2
    held-lt u i (inr (eu, ei)) = omega (arith, h.seeded)

    held_index : (u i j : ℕ) → Holds x laws s u i → Holds x laws s u j → i ≡ j
    held_index u i j (inl e) (inl f) = cc
    held_index u i j (inl e) (inr f) = absurd (omega (arith, h.ranged u i e))
    held_index u i j (inr e) (inl f) = absurd (omega (arith, h.ranged u j f))
    held_index u i j (inr e) (inr f) = omega arith

    pub held_single : (u w i : ℕ) → Holds x laws s u i → Holds x laws s w i → u ≡ w
    held_single u w i (inl e) (inl f) = h.single u w i e f
    held_single u w i (inl e) (inr f) = absurd (omega (arith, h.ranged u i e))
    held_single u w i (inr e) (inl f) = absurd (omega (arith, h.ranged w i f))
    held_single u w i (inr e) (inr f) = omega arith

  -- One insertion: `nodes'` is `nodes` with the low leaf repointed and the new leaf appended.
  module _ (nodes nodes' : Tree F) (s : State) (v : ℕ) (h : IsLinked nodes s) (pos : 0 < v)
      (fresh : get v s ≡ none) (tree' : IsTree node empty nodes')
      (longer : nodes'.next ≡ nodes.next + 1)
      (leaves : (j : ℕ)
        → leaf node empty nodes' j ≡ (
            if j == nodes.next
            then leaf_hash v (succ x v s).0 (succ x v s).1
            else if j == (pred x v s).1
            then leaf_hash (pred x v s).0 v nodes.next
            else leaf node empty nodes j)) where
    insert_ranged :
        (u i : ℕ)
        → ((u ≡ v) × (i ≡ nodes.next)) ⊎ (get u s ≡ some i)
        → (0 < u) × (0 < i) × (i < nodes'.next)
    insert_ranged u i (inl (eu, ei)) = omega (arith, h.seeded)
    insert_ranged u i (inr e) = omega (arith, h.ranged u i e)

    insert_single :
        (u w i : ℕ)
        → ((u ≡ v) × (i ≡ nodes.next)) ⊎ (get u s ≡ some i)
        → ((w ≡ v) × (i ≡ nodes.next)) ⊎ (get w s ≡ some i)
        → u ≡ w
    insert_single u w i (inl p) (inl q) = omega arith
    insert_single u w i (inl p) (inr e) = absurd (omega (arith, h.ranged w i e))
    insert_single u w i (inr e) (inl q) = absurd (omega (arith, h.ranged u i e))
    insert_single u w i (inr e) (inr f) = h.single u w i e f

    owner_before :
        (i : ℕ) → (u : ℕ) × (get u s ≡ some i) → (u : ℕ) × (get u (put v nodes.next s) ≡ some i)
    owner_before i (u, e) =
        (u, get-after_ne x laws v nodes.next s h.sound fresh pos u (λ q. taken q e) ∙ e)
      where
        taken : u ≡ v → get u s ≡ some i → ⊥
        taken q e = cc

    insert_owner :
        (i : ℕ) → 0 < i → i < nodes'.next → (u : ℕ) × (get u (put v nodes.next s) ≡ some i)
    insert_owner i lo hi = elim (Bool-cases (i == nodes.next)) [
      | inl new ↦
          let e : nodes.next ≡ i = omega (arith, (==_iff i nodes.next).0 new) in
          (v, get-after_self x laws v nodes.next s h.sound fresh pos ∙ ap some e)
      | inr old ↦ owner_before i (h.owner i lo (ground arith))
    ]

    -- What was held keeps its leaf, repointed if it is the low leaf's.
    old_linked :
        (u i : ℕ)
        → Holds x laws s u i
        → u ≢ v
        → leaf node empty nodes' i ≡ linked_leaf (put v nodes.next s) u
    old_linked u i held ne =
        let pl = (pred_lem x laws v s h.sound pos).0 in
        let inside = held-lt nodes s h u i held in
        let old : (i == nodes.next) ≡ false = ground arith in
        elim (Bool-cases (i == (pred x v s).1)) [
          | inl low ↦
              let ei : i ≡ (pred x v s).1 = (==_iff i (pred x v s).1).0 low in
              let eu : u ≡ (pred x v s).0 =
                held_single nodes s h u (pred x v s).0 i held
                  (subst (λ j. Holds x laws s (pred x v s).0 j) (sym ei) pl) in
              leaves i
              ∙ rw (old, low, eu, succ-after_low x laws v nodes.next s h.sound fresh pos) refl
          | inr other ↦
              let nu : u ≢ (pred x v s).0 = λ eu.
                let ei : i ≡ (pred x v s).1 =
                  held_index nodes s h u i (pred x v s).1 held
                    (subst (λ w. Holds x laws s w (pred x v s).1) (sym eu) pl) in
                ground arith in
              leaves i
              ∙ rw
                  (
                    old,
                    other,
                    succ-after_other x laws v nodes.next s h.sound fresh pos u i held nu ne,
                  )
                  (h.linked u i held)
        ]

    insert_linked :
        (u i : ℕ)
        → Holds x laws (put v nodes.next s) u i
        → leaf node empty nodes' i ≡ linked_leaf (put v nodes.next s) u
    insert_linked u i (inl e) = held (held_before x laws v nodes.next s h.sound fresh pos u i e)
      where
        held :
            ((u ≡ v) × (i ≡ nodes.next)) ⊎ (get u s ≡ some i)
            → leaf node empty nodes' i ≡ linked_leaf (put v nodes.next s) u
        held (inl (eu, ei)) =
            leaves i
            ∙ rw
                (ei, eu, ==_self nodes.next, succ-after_new x laws v nodes.next s h.sound fresh pos)
                refl
        held (inr f) = old_linked u i (inl f) (λ q. taken q f)
          where
            taken : u ≡ v → get u s ≡ some i → ⊥
            taken q g = cc
    insert_linked u i (inr z) = old_linked u i (inr z) (omega arith)

    pub insert-IsLinked : IsLinked nodes' (put v nodes.next s)
    insert-IsLinked = record {
      tree = tree';
      sound = after_sound x laws v nodes.next s h.sound fresh pos;
      seeded = omega (arith, longer);
      ranged =
          λ u i e. insert_ranged u i (held_before x laws v nodes.next s h.sound fresh pos u i e);
      single = λ u w i e f.
          insert_single u w i (held_before x laws v nodes.next s h.sound fresh pos u i e)
            (held_before x laws v nodes.next s h.sound fresh pos w i f);
      owner = insert_owner;
      linked = insert_linked;
    }

-- ===== src/Zk/Indexed/Rebuild.antt =====
-- `Rebuild` of zk/indexed, and the abstract set of values that the tree implements.
use earth_network_chain.Base.{
  ℕ, ◌<◌, ◌≤◌, ◌+◌, length, ◌≡◌, refl, ap, ◌∙◌, Bool, false, ◌||◌, ◌==◌, none, arith, inl, inr,
  Result, ok, err, ◌>>=◌, List, [], ◌∷◌, >>=-eq-ok,
}
use earth_network_chain.Zk.Merkle.{new_mem, capacity}
use earth_network_chain.Zk.Merkle.Writes.{new_mem-IsTree}
use earth_network_chain.Zk.Indexed.{Index, IsIndex, IndexedTree, has_value, insert, insert_all}
use earth_network_chain.Zk.Indexed.Memory.{mem_index, mem_get, search, new_indexed, rebuild}
use earth_network_chain.Zk.Indexed.Memory.Sorted.{mem_index_laws}
use earth_network_chain.Zk.Indexed.Insert.{IsIndexed, first_free, Inserts, insert-Inserts}

-- Whether a value is in a list.
abbrev pub elem : ℕ → List ℕ → Bool
elem u [] = false
elem u (v ∷ vs) = u == v || elem u vs

-- The values are nonzero, distinct and not members yet.
abbrev pub AreNew : List ℕ → (ℕ → Bool) → Type 0
AreNew [] member = Unit
AreNew (v ∷ vs) member = (0 < v) × (member v ≡ false) × AreNew vs (λ u. u == v || member u)

either_later : (a b c : Bool) → (b || (a || c)) ≡ ((a || b) || c)
either_later a b c = ground arith

module _ {F : Type 0} (node : F → F → F) (empty : F) (leaf_hash : ℕ → ℕ → ℕ → F) (x : Index)
    (laws : IsIndex x) where
  open x use {State, get}

  -- A tree stands for a set of values: it is well-formed, and it has just those.
  abbrev pub Represents : IndexedTree x F → (ℕ → Bool) → Type 0
  Represents t member =
      IsIndexed node empty leaf_hash x laws t × ((u : ℕ) → has_value x u t ≡ member u)

  -- `New` over an empty store and an empty index.
  pub new_tree-Represents :
      (s : State)
      → laws.IsSound s
      → ((u : ℕ) → get u s ≡ none)
      → Represents (record { nodes = new_mem; index = s }) (λ u. false)
  new_tree-Represents s sound nothing = (
    inl (record {
      tree = new_mem-IsTree node empty;
      sound = sound;
      unseeded = refl;
      nothing = nothing;
    }),
    λ u. rw (nothing u, has_value) refl,
  )

  insert-Represents :
      (v : ℕ) (t t' : IndexedTree x F) (i : ℕ) (member : ℕ → Bool)
      → Represents t member
      → (r : Result (IndexedTree x F × ℕ)) → Inserts node empty leaf_hash x laws v t r
      → r ≡ ok (t', i)
      → Represents t' (λ u. u == v || member u)
  insert-Represents v t t' i member rep (err e) ins q = cc
  insert-Represents v t t' i member (h, has) (ok (t1, i1)) ins q =
      let same : t1 ≡ t' = ap state (ok-injective q) in
      rw (← same) (ins.0, λ u. ins.5 u ∙ ap (λ b. u == v || b) (has u))
    where
      state : IndexedTree x F × ℕ → IndexedTree x F
      state p = p.0

      ok-injective : {A : Type 0} {a b : A} → ok a ≡ ok b → a ≡ b
      ok-injective e = cc

  -- A tree that `Rebuild` fills from a list stands for the values that were there and the list's.
  pub insert_all-Represents :
      (vs : List ℕ) (t t' : IndexedTree x F) (member : ℕ → Bool)
      → Represents t member
      → insert_all node empty leaf_hash x vs t ≡ ok t'
      → Represents t' (λ u. elem u vs || member u)
  unfolding insert_all
  insert_all-Represents [] t t' member rep q = let same : t ≡ t' = cc in rw (← same) rep
  insert_all-Represents (v ∷ vs) t t' member rep q =
      let ((t1, i), e, rest) =
        >>=-eq-ok (insert node empty leaf_hash x v t)
          (λ r. insert_all node empty leaf_hash x vs (r.0)) q in
      let rep1 =
        insert-Represents v t t1 i member rep (insert node empty leaf_hash x v t)
          (insert-Inserts node empty leaf_hash x laws v t rep.0) e in
      let (h, has) = insert_all-Represents vs t1 t' (λ u. u == v || member u) rep1 rest in
      (h, λ u. has u ∙ either_later (u == v) (elem u vs) (member u))

  -- One insertion of a new value, below capacity.
  insert_total :
      (v : ℕ) (t : IndexedTree x F) (member : ℕ → Bool)
      → Represents t member
      → 0 < v
      → member v ≡ false
      → t.nodes.next < capacity
      → (r : Result (IndexedTree x F × ℕ)) → Inserts node empty leaf_hash x laws v t r
      → (t' : IndexedTree x F) × (i : ℕ) × (r ≡ ok (t', i))
        × (first_free t'.nodes.next ≡ first_free t.nodes.next + 1)
  insert_total v t member rep pos new room (err e) (inl (_, z)) = absurd (omega arith)
  insert_total v t member rep pos new room (err e) (inr (inl (_, there))) = cc (rep.1 v)
  insert_total v t member rep pos new room (err e) (inr (inr (_, full))) = absurd (omega arith)
  insert_total v t member rep pos new room (ok (t', i)) ins =
      (t', i, refl, ground (arith, ins.3, ins.4))

  insert_all-total :
      (vs : List ℕ) (t : IndexedTree x F) (member : ℕ → Bool)
      → Represents t member
      → AreNew vs member
      → first_free t.nodes.next + length vs ≤ capacity
      → (t' : IndexedTree x F) × (insert_all node empty leaf_hash x vs t ≡ ok t')
        × Represents t' (λ u. elem u vs || member u)
        × (first_free t'.nodes.next ≡ first_free t.nodes.next + length vs)
  unfolding insert_all
  insert_all-total [] t member rep new room = (t, refl, rep, omega arith)
  insert_all-total (v ∷ vs) t member rep (pos, fresh, new) room =
      let ins = insert-Inserts node empty leaf_hash x laws v t rep.0 in
      let (t1, i, e, next) =
        insert_total v t member rep pos fresh (ground (arith, room))
          (insert node empty leaf_hash x v t) ins in
      let rep1 = insert-Represents v t t1 i member rep (insert node empty leaf_hash x v t) ins e in
      let (t', e', (h, has), last) =
        insert_all-total vs t1 (λ u. u == v || member u) rep1 new (omega (arith, next, room)) in
      (
        t',
        ap (λ m. m >>= λ r. insert_all node empty leaf_hash x vs (r.0)) e ∙ e',
        (h, λ u. has u ∙ either_later (u == v) (elem u vs) (member u)),
        omega (arith, last, next),
      )

module _ {F : Type 0} (node : F → F → F) (empty : F) (leaf_hash : ℕ → ℕ → ℕ → F) where
  -- `Rebuild` of a list whose values are nonzero and distinct, and which fits beside the sentinel,
  -- returns a tree that stands for the set of the list's values.
  pub rebuild-Represents :
      (values : List ℕ)
      → AreNew values (λ u. false)
      → length values < capacity
      → (t : IndexedTree mem_index F) × (rebuild node empty leaf_hash values ≡ ok t)
        × Represents node empty leaf_hash mem_index mem_index_laws t (λ u. elem u values)
  unfolding rebuild mem_get search
  rebuild-Represents values new room =
      let (t, e, (h, has), next) =
        insert_all-total node empty leaf_hash mem_index mem_index_laws values new_indexed
          (λ u. false)
          (new_tree-Represents node empty leaf_hash mem_index mem_index_laws [] tt (λ u. refl)) new
          (omega (arith, room)) in
      (t, e, (h, λ u. has u ∙ or_false (elem u values)))
    where
      or_false : (b : Bool) → (b || false) ≡ b
      or_false b = ground arith

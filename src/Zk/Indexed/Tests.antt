-- ===== src/Zk/Indexed/Tests.antt =====
-- Runs of zk/indexed over the in-memory index and hashes that keep their arguments.
use earth_network_chain.Base.{
  ℕ, ◌+◌, ◌*◌, ◌≡◌, ◌⊎◌, ◌==◌, ==_iff, refl, false, none, Result, some, [], ◌∷◌, ok, err, arith,
  value_zero,
}
use earth_network_chain.Zk.Merkle.{append, update, path}
use earth_network_chain.Zk.Indexed.{
  IndexedTree, Witness, has_value, insert, non_membership, low_path, sentinel,
}
use earth_network_chain.Zk.Indexed.Insert.{Inserts, insert-Inserts}
use earth_network_chain.Zk.Indexed.Absence.{Proves, non_membership-Proves}
use earth_network_chain.Zk.Indexed.Verify.{IsForged, verify_sound}
use earth_network_chain.Zk.Indexed.Rebuild.{
  Represents, new_tree-Represents, elem, rebuild-Represents,
}
use earth_network_chain.Zk.Indexed.Memory.{
  mem_index, new_indexed, rebuild, mem_get, mem_below, mem_above, mem_put, search,
}
use earth_network_chain.Zk.Indexed.Memory.Sorted.{mem_index_laws}

data Digest : Type 0 where
  nothing : Digest
  pair : Digest → Digest → Digest
  tagged : ℕ → ℕ → ℕ → Digest

-- The searches of a sorted index, at, between and beyond its values.
searches :
    (mem_get 7 ((3, 1) ∷ (7, 2) ∷ []) ≡ some 2)
    × (mem_below 7 ((3, 1) ∷ (7, 2) ∷ []) ≡ some (3, 1))
    × (mem_above 3 ((3, 1) ∷ (7, 2) ∷ []) ≡ some (7, 2))
    × (mem_above 7 ((3, 1) ∷ (7, 2) ∷ []) ≡ none)
    × (mem_put 5 3 ((3, 1) ∷ (7, 2) ∷ []) ≡ (3, 1) ∷ (5, 3) ∷ (7, 2) ∷ [])
unfolding mem_get mem_below mem_above mem_put search
searches = (refl, refl, refl, refl, refl)

-- The tree with nothing inserted.
new_indexed-Represents :
    Represents pair nothing tagged mem_index mem_index_laws new_indexed (λ u. false)
unfolding mem_get search
new_indexed-Represents =
    new_tree-Represents pair nothing tagged mem_index mem_index_laws [] tt (λ u. refl)

insert-Inserts_example :
    Inserts pair nothing tagged mem_index mem_index_laws 5 new_indexed
      (insert pair nothing tagged mem_index 5 new_indexed)
insert-Inserts_example =
    insert-Inserts pair nothing tagged mem_index mem_index_laws 5 new_indexed
      new_indexed-Represents.0

insert_zero : insert pair nothing tagged mem_index 0 new_indexed ≡ err value_zero
unfolding insert
insert_zero = refl

rebuild-Represents_example :
    (t : IndexedTree mem_index Digest) × (rebuild pair nothing tagged (5 ∷ 3 ∷ []) ≡ ok t)
    × Represents pair nothing tagged mem_index mem_index_laws t (λ u. elem u (5 ∷ 3 ∷ []))
rebuild-Represents_example =
    rebuild-Represents pair nothing tagged (5 ∷ 3 ∷ []) (omega arith, refl, (omega arith, refl, tt))
      (omega arith)

non_membership-Proves_example :
    Proves pair nothing tagged mem_index mem_index_laws 5 new_indexed
      (non_membership pair nothing tagged mem_index 5 new_indexed)
non_membership-Proves_example =
    non_membership-Proves pair nothing tagged mem_index mem_index_laws 5 new_indexed
      new_indexed-Represents.0

-- Hashes with collisions.
abbrev mix : ℕ → ℕ → ℕ
mix a b = 2 * a + 3 * b

abbrev mix_leaf : ℕ → ℕ → ℕ → ℕ
mix_leaf a b c = 1 + a + 10 * b + 100 * c

abbrev tree_or :
    IndexedTree mem_index ℕ → Result (IndexedTree mem_index ℕ × ℕ) → IndexedTree mem_index ℕ
tree_or t (ok r) = r.0
tree_or t (err e) = t

-- The tree with 5 inserted.
abbrev with_five : IndexedTree mem_index ℕ
with_five = tree_or new_indexed (insert mix 0 mix_leaf mem_index 5 new_indexed)

inserted : Inserts mix 0 mix_leaf mem_index mem_index_laws 5 new_indexed (ok (with_five, 1))
unfolding insert mem_get mem_below mem_above search append update
inserted = done
  where
    blank : Represents mix 0 mix_leaf mem_index mem_index_laws new_indexed (λ u. false)
    blank = new_tree-Represents mix 0 mix_leaf mem_index mem_index_laws [] tt (λ u. refl)

    done :
        Inserts mix 0 mix_leaf mem_index mem_index_laws 5 new_indexed
          (insert mix 0 mix_leaf mem_index 5 new_indexed)
    done = insert-Inserts mix 0 mix_leaf mem_index mem_index_laws 5 new_indexed blank.0

-- The witness that 7 is not in it, next to the leaf of 5.
abbrev witness_or : Witness ℕ → Result (Witness ℕ) → Witness ℕ
witness_or w (ok r) = r
witness_or w (err e) = w

abbrev seven_witness : Witness ℕ
seven_witness =
    witness_or (record { low = sentinel; index = 0; siblings = [] })
      (non_membership mix 0 mix_leaf mem_index 7 with_five)

seven_absent : Proves mix 0 mix_leaf mem_index mem_index_laws 7 with_five (ok seven_witness)
unfolding non_membership low_path mem_get mem_below mem_above search insert append update mem_put
    path
seven_absent = proved
  where
    proved :
        Proves mix 0 mix_leaf mem_index mem_index_laws 7 with_five
          (non_membership mix 0 mix_leaf mem_index 7 with_five)
    proved = non_membership-Proves mix 0 mix_leaf mem_index mem_index_laws 7 with_five inserted.0

seven_index : seven_witness.index ≡ 1
unfolding non_membership low_path mem_get mem_below mem_above search insert append update mem_put
    path
seven_index = refl

verify_sound_example :
    (has_value mem_index 7 with_five ≡ false)
    ⊎ IsForged mix 0 mix_leaf mem_index mem_index_laws seven_witness with_five.nodes with_five.index
verify_sound_example =
    verify_sound mix 0 mix_leaf mem_index mem_index_laws ◌==◌ ==_iff seven_witness 7 with_five
      seven_absent.1 inserted.0 seven_absent.2 (omega (arith, seven_index)) seven_absent.3
      seven_absent.4

-- ===== src/Zk/Merkle/Tests.antt =====
-- Runs of zk/merkle on concrete trees, over a hash that keeps its two arguments.
use earth_network_chain.Base.{
  ℕ, ◌+◌, ◌*◌, ◌≡◌, ◌⊎◌, ◌==◌, ==_iff, refl, List, ◌∷◌, length, ok, err, tree_full, out_of_range,
  arith, none, ◌^◌,
}
use earth_network_chain.Zk.Merkle.{
  node_at, root_loop, set_loop, zero_at, depth, Tree, new_mem, root, leaf, set_leaf, append, update,
  path_loop, path, root_from_path,
}
use earth_network_chain.Zk.Merkle.Consistent.{
  IsConsistent, set_leaf-IsConsistent, empty-IsConsistent,
}
use earth_network_chain.Zk.Merkle.Paths.{Collides, root_from_path-path, root_from_path_binds}
use earth_network_chain.Zk.Merkle.Writes.{
  IsTree, new_mem-IsTree, Appends, append-Appends, Updates, update-Updates,
}

data Digest : Type 0 where
  value : ℕ → Digest
  pair : Digest → Digest → Digest

-- The tree after one append.
abbrev one_leaf : Tree Digest
one_leaf = record { store = set_leaf pair (value 0) (λ l i. none) 0 (value 5); next = 1 }

one_leaf-IsConsistent : IsConsistent pair (value 0) depth one_leaf.store
one_leaf-IsConsistent =
    set_leaf-IsConsistent pair (value 0) (λ l i. none) 0 (value 5)
      (empty-IsConsistent pair (value 0))

one_leaf-append : append pair (value 0) new_mem (value 5) ≡ ok (one_leaf, 0)
unfolding append
one_leaf-append = refl

append_full : (append pair (value 0) (record one_leaf { next = 2 ^ 32 }) (value 7)) ≡ err tree_full
unfolding append
append_full = refl

update_unappended : update pair (value 0) one_leaf 1 (value 7) ≡ err out_of_range
unfolding update
update_unappended = refl

append-Appends_example :
    Appends pair (value 0) new_mem (value 5) (append pair (value 0) new_mem (value 5))
append-Appends_example =
    append-Appends pair (value 0) new_mem (value 5) (new_mem-IsTree pair (value 0))

one_leaf-IsTree : IsTree pair (value 0) one_leaf
unfolding append
one_leaf-IsTree = append-Appends_example'.0
  where
    append-Appends_example' :
        Appends pair (value 0) new_mem (value 5) (append pair (value 0) new_mem (value 5))
    append-Appends_example' =
        append-Appends pair (value 0) new_mem (value 5) (new_mem-IsTree pair (value 0))

update-Updates_example :
    Updates pair (value 0) one_leaf 0 (value 9) (update pair (value 0) one_leaf 0 (value 9))
update-Updates_example = update-Updates pair (value 0) one_leaf 0 (value 9) one_leaf-IsTree

abbrev siblings : List Digest
siblings = path_loop pair (value 0) depth 0 one_leaf.store 0

siblings-path : path pair (value 0) one_leaf 0 ≡ ok siblings
unfolding path
siblings-path = refl

root_from_path-path_example :
    (length siblings ≡ depth)
    × (root_from_path pair (value 0) (leaf pair (value 0) one_leaf 0) 0 siblings
        ≡ root pair (value 0) one_leaf)
root_from_path-path_example =
    root_from_path-path pair (value 0) one_leaf 0 siblings one_leaf-IsConsistent (omega arith)
      siblings-path

-- A hash with collisions, and the tree of the leaf 5 over it.
abbrev mix : ℕ → ℕ → ℕ
mix a b = 2 * a + 3 * b

abbrev mixed : Tree ℕ
mixed = record { store = set_leaf mix 0 (λ l i. none) 0 5; next = 1 }

-- The leaf 2 with the sibling 2, which hash to what the leaf 5 does with the sibling 0.
abbrev forged : List ℕ
forged = 2 ∷ path_loop mix 0 31 1 mixed.store 0

forged-root : root_from_path mix 0 2 0 forged ≡ root mix 0 mixed
unfolding root_from_path path_loop set_leaf node_at root_loop set_loop zero_at
forged-root = refl

root_from_path_binds_example : (2 ≡ leaf mix 0 mixed 0) ⊎ Collides mix 0 0 mixed.store 0 2 forged
unfolding path_loop
root_from_path_binds_example =
    root_from_path_binds mix 0 ◌==◌ ==_iff mixed 2 0 forged
      (set_leaf-IsConsistent mix 0 (λ l i. none) 0 5 (empty-IsConsistent mix 0)) (omega arith) refl
      forged-root

-- ===== src/Zk/Indexed/Memory/Sorted.antt =====
-- `MemIndex` of zk/indexed/mem.go, sorted, is an index.
use earth_network_chain.Base.{
  ℕ, suc, ◌≤◌, ◌<◌, ◌≡◌, subst, ◌∙◌, leb, ◌==◌, ==_iff, Option, none, some, List, [], ◌∷◌, arith,
  Bool-cases, inl, inr, ◌⊎◌,
}
use earth_network_chain.Zk.Indexed.{IsIndex}
use earth_network_chain.Zk.Indexed.Memory.{
  get_elem?, search, mem_get, mem_below, mem_above, mem_index,
}
use earth_network_chain.Zk.Indexed.Memory.Entries.{
  IsSortedFrom, or_front, mem_below-∷, mem_above-∷, mem_get-[], mem_get_head, mem_get_tail,
  mem_get_bound, mem_put_sound, mem_get_put,
}

-- What `Below` and `Above` return, against what is stored.
abbrev pub IsBelow : ℕ → List (ℕ × ℕ) → Option (ℕ × ℕ) → Type 0
IsBelow v es none = (u j : ℕ) → mem_get u es ≡ some j → v ≤ u
IsBelow v es (some (w, i)) =
    (mem_get w es ≡ some i) × (w < v) × ((u j : ℕ) → mem_get u es ≡ some j → u < v → u ≤ w)

abbrev pub IsAbove : ℕ → List (ℕ × ℕ) → Option (ℕ × ℕ) → Type 0
IsAbove v es none = (u j : ℕ) → mem_get u es ≡ some j → u ≤ v
IsAbove v es (some (w, i)) =
    (mem_get w es ≡ some i) × (v < w) × ((u j : ℕ) → mem_get u es ≡ some j → v < u → w ≤ u)

-- A stored value is the first entry's, or a later one's.
mem_get_either :
    (b u w j k : ℕ) (es : List (ℕ × ℕ))
    → IsSortedFrom b ((w, k) ∷ es)
    → mem_get u ((w, k) ∷ es) ≡ some j
    → (u ≡ w) ⊎ ((w < u) × (mem_get u es ≡ some j))
mem_get_either b u w j k es (lo, h) e = elim (Bool-cases (u == w)) [
  | inl same ↦ inl ((==_iff u w).0 same)
  | inr other ↦
      let over : w ≤ u = mem_get_bound w u j ((w, k) ∷ es) (omega arith, h) e in
      inr (ground arith, cc (mem_get_tail u w k es (ground arith)))
]

pub mem_below-IsBelow :
    (b v : ℕ) (es : List (ℕ × ℕ)) → IsSortedFrom b es → IsBelow v es (mem_below v es)
unfolding mem_below search
mem_below-IsBelow b v [] h = λ u j e. cc (mem_get-[] u)
mem_below-IsBelow b v ((w, k) ∷ es) h = elim (Bool-cases (leb v w)) [
  | inl le ↦
      rw (mem_below-∷ v w k es, le)
        (λ u j e. ground (arith, mem_get_bound w u j ((w, k) ∷ es) (omega arith, h.1) e))
  | inr gt ↦
      rw (mem_below-∷ v w k es, gt)
        (from_tail (mem_below v es) (ground arith) (mem_below-IsBelow (suc w) v es (h.1)))
]
  where
    from_tail :
        (o : Option (ℕ × ℕ)) → w < v → IsBelow v es o → IsBelow v ((w, k) ∷ es) (or_front (w, k) o)
    from_tail none lt f = (
      mem_get_head w k es,
      lt,
      λ u j e lu. elim (mem_get_either b u w j k es h e) [
        | inl same ↦ omega arith
        | inr (gt, e') ↦ absurd (omega (arith, f u j e'))
      ],
    )
    from_tail (some (w', i)) lt (e, lt', most) =
        let over : w < w' = mem_get_bound (suc w) w' i es (h.1) e in
        (
          mem_get_tail w' w k es over ∙ e,
          lt',
          λ u j eu lu. elim (mem_get_either b u w j k es h eu) [
            | inl same ↦ omega arith
            | inr (gt, e') ↦ most u j e' lu
          ],
        )

-- The entry after an equal one.
second-IsAbove :
    (b w k : ℕ) (es : List (ℕ × ℕ))
    → IsSortedFrom b ((w, k) ∷ es)
    → IsAbove w ((w, k) ∷ es) (get_elem? 0 es)
second-IsAbove b w k [] h = λ u j e. elim (mem_get_either b u w j k [] h e) [
  | inl same ↦ omega arith
  | inr (gt, e') ↦ cc (mem_get-[] u)
]
second-IsAbove b w k ((w', k') ∷ es) (lo, (lo', h)) = (
  mem_get_tail w' w k ((w', k') ∷ es) lo' ∙ mem_get_head w' k' es,
  lo',
  λ u j e lu. elim (mem_get_either b u w j k ((w', k') ∷ es) (lo, (lo', h)) e) [
    | inl same ↦ absurd (omega arith)
    | inr (gt, e') ↦ mem_get_bound w' u j ((w', k') ∷ es) (omega arith, h) e'
  ],
)

pub mem_above-IsAbove :
    (b v : ℕ) (es : List (ℕ × ℕ)) → IsSortedFrom b es → IsAbove v es (mem_above v es)
unfolding mem_above search
mem_above-IsAbove b v [] h = λ u j e. cc (mem_get-[] u)
mem_above-IsAbove b v ((w, k) ∷ es) h = elim (Bool-cases (leb v w)) [
  | inr gt ↦
      rw (mem_above-∷ v w k es, gt)
        (from_tail (mem_above v es) (ground arith) (mem_above-IsAbove (suc w) v es (h.1)))
  | inl le ↦ elim (Bool-cases (w == v)) [
    | inl same ↦
        rw (mem_above-∷ v w k es, le, same)
          (subst (λ z. IsAbove z ((w, k) ∷ es) (get_elem? 0 es)) ((==_iff w v).0 same)
            (second-IsAbove b w k es h))
    | inr other ↦
        rw (mem_above-∷ v w k es, le, other)
          (
            mem_get_head w k es,
            ground arith,
            λ u j e lu. mem_get_bound w u j ((w, k) ∷ es) (omega arith, h.1) e,
          )
  ]
]
  where
    from_tail : (o : Option (ℕ × ℕ)) → w < v → IsAbove v es o → IsAbove v ((w, k) ∷ es) o
    from_tail none lt f = λ u j e. elim (mem_get_either b u w j k es h e) [
      | inl same ↦ omega arith
      | inr (gt, e') ↦ f u j e'
    ]
    from_tail (some (w', i)) lt (e, over, least) = (
      mem_get_tail w' w k es (omega arith) ∙ e,
      over,
      λ u j eu lu. elim (mem_get_either b u w j k es h eu) [
        | inl same ↦ absurd (omega arith)
        | inr (gt, e') ↦ least u j e' lu
      ],
    )

abbrev pub mem_index_laws : IsIndex mem_index
mem_index_laws = record {
  IsSound = IsSortedFrom 0;
  put_sound = λ v i s h fresh. mem_put_sound 0 v i s h (omega arith) fresh;
  get_put = λ u v i s h fresh. mem_get_put 0 u v i s h fresh;
  below_some = λ v w i s h e. subst (IsBelow v s) e (mem_below-IsBelow 0 v s h);
  below_none = λ v s h e. subst (IsBelow v s) e (mem_below-IsBelow 0 v s h);
  above_some = λ v w i s h e. subst (IsAbove v s) e (mem_above-IsAbove 0 v s h);
  above_none = λ v s h e. subst (IsAbove v s) e (mem_above-IsAbove 0 v s h);
}

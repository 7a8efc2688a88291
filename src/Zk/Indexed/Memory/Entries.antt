-- ===== src/Zk/Indexed/Memory/Entries.antt =====
-- `Get` and `Put` of zk/indexed/mem.go over sorted values, and each search one entry at a time.
use earth_network_chain.Base.{
  ℕ, suc, ◌≤◌, ◌<◌, ◌≡◌, refl, ◌∙◌, true, false, leb, ◌==◌, ==_iff, if◌then◌else◌, Option, none,
  some, List, [], ◌∷◌, arith, Bool-cases, inl, inr, ◌⊎◌,
}
use earth_network_chain.Zk.Indexed.Memory.{
  get_elem?, search, mem_get, mem_below, mem_above, mem_put,
}

-- The values ascend, from a bound on.
abbrev pub IsSortedFrom : ℕ → List (ℕ × ℕ) → Type 0
IsSortedFrom b [] = Unit
IsSortedFrom b ((w, j) ∷ es) = (b ≤ w) × IsSortedFrom (suc w) es

sorted_weaken : (a b : ℕ) (es : List (ℕ × ℕ)) → a ≤ b → IsSortedFrom b es → IsSortedFrom a es
sorted_weaken a b [] le h = tt
sorted_weaken a b ((w, j) ∷ es) le (lo, h) = (omega arith, h)

-- The operations, one entry at a time.
mem_get-∷ :
    (v w j : ℕ) (es : List (ℕ × ℕ))
    → mem_get v ((w, j) ∷ es)
      ≡ (if leb v w then (if w == v then some j else none) else mem_get v es)
unfolding mem_get search
mem_get-∷ v w j es = elim (Bool-cases (leb v w)) [ inl e ↦ rw e refl | inr e ↦ rw e refl ]

-- An entry, or the one in front of it.
abbrev pub or_front : ℕ × ℕ → Option (ℕ × ℕ) → Option (ℕ × ℕ)
or_front e none = some e
or_front e (some d) = some d

or_front_twice : (e d : ℕ × ℕ) (o : Option (ℕ × ℕ)) → or_front d o ≡ or_front e (or_front d o)
or_front_twice e d none = refl
or_front_twice e d (some c) = refl

-- The entry before the position that `search` gives, with one more entry in front.
below_next :
    (v w j : ℕ) (es : List (ℕ × ℕ))
    → get_elem? (search v es) ((w, j) ∷ es) ≡ or_front (w, j) (mem_below v es)
unfolding mem_below search
below_next v w j [] = refl
below_next v w j ((w', j') ∷ es) = elim (Bool-cases (leb v w')) [
  | inl e ↦ rw e refl
  | inr e ↦ rw (e, below_next v w' j' es) (or_front_twice (w, j) (w', j') (mem_below v es))
]

pub mem_below-∷ :
    (v w j : ℕ) (es : List (ℕ × ℕ))
    → mem_below v ((w, j) ∷ es) ≡ (if leb v w then none else or_front (w, j) (mem_below v es))
unfolding mem_below search
mem_below-∷ v w j es = elim (Bool-cases (leb v w)) [
  | inl e ↦ rw e refl
  | inr e ↦ rw e (below_next v w j es)
]

pub mem_above-∷ :
    (v w j : ℕ) (es : List (ℕ × ℕ))
    → mem_above v ((w, j) ∷ es)
      ≡ (if leb v w then (if w == v then get_elem? 0 es else some (w, j)) else mem_above v es)
unfolding mem_above search
mem_above-∷ v w j es = elim (Bool-cases (leb v w)) [ inl e ↦ rw e refl | inr e ↦ rw e refl ]

mem_put-∷ :
    (v i w j : ℕ) (es : List (ℕ × ℕ))
    → mem_put v i ((w, j) ∷ es)
      ≡ (if leb v w then (v, i) ∷ (w, j) ∷ es else (w, j) ∷ mem_put v i es)
unfolding mem_put search
mem_put-∷ v i w j es = elim (Bool-cases (leb v w)) [ inl e ↦ rw e refl | inr e ↦ rw e refl ]

pub mem_get-[] : (v : ℕ) → mem_get v [] ≡ none
unfolding mem_get search
mem_get-[] v = refl

mem_put-[] : (v i : ℕ) → mem_put v i [] ≡ (v, i) ∷ []
unfolding mem_put search
mem_put-[] v i = refl

-- The first entry holds its value.
pub mem_get_head : (w j : ℕ) (es : List (ℕ × ℕ)) → mem_get w ((w, j) ∷ es) ≡ some j
mem_get_head w j es = mem_get-∷ w w j es ∙ ground arith

-- An entry after the first.
pub mem_get_tail : (v w j : ℕ) (es : List (ℕ × ℕ)) → w < v → mem_get v ((w, j) ∷ es) ≡ mem_get v es
mem_get_tail v w j es lt = mem_get-∷ v w j es ∙ ground arith

-- A value below the first entry's.
mem_get_before : (v w j : ℕ) (es : List (ℕ × ℕ)) → v < w → mem_get v ((w, j) ∷ es) ≡ none
mem_get_before v w j es lt = mem_get-∷ v w j es ∙ ground arith

-- What is stored is not below the bound.
pub mem_get_bound :
    (b v j : ℕ) (es : List (ℕ × ℕ)) → IsSortedFrom b es → mem_get v es ≡ some j → b ≤ v
mem_get_bound b v j [] h e = cc (mem_get-[] v)
mem_get_bound b v j ((w, k) ∷ es) (lo, h) e = elim (Bool-cases (leb b v)) [
  | inl le ↦ ground arith
  | inr gt ↦ cc (mem_get_before v w k es (ground arith))
]

-- Where a value that is not stored stands to the first entry.
mem_get_apart :
    (v w j : ℕ) (es : List (ℕ × ℕ))
    → mem_get v ((w, j) ∷ es) ≡ none
    → (v < w) ⊎ ((w < v) × (mem_get v es ≡ none))
mem_get_apart v w j es e = elim (Bool-cases (v == w)) [
  | inl same ↦ cc (mem_get_head w j es, (==_iff v w).0 same)
  | inr other ↦ elim (Bool-cases (leb v w)) [
    | inl le ↦ inl (ground arith)
    | inr gt ↦ inr (ground arith, cc (mem_get_tail v w j es (ground arith)))
  ]
]

mem_put_before :
    (v i w j : ℕ) (es : List (ℕ × ℕ)) → v < w → mem_put v i ((w, j) ∷ es) ≡ (v, i) ∷ (w, j) ∷ es
mem_put_before v i w j es lt =
    let yes : leb v w ≡ true = ground arith in mem_put-∷ v i w j es ∙ rw yes refl

mem_put_after :
    (v i w j : ℕ) (es : List (ℕ × ℕ)) → w < v → mem_put v i ((w, j) ∷ es) ≡ (w, j) ∷ mem_put v i es
mem_put_after v i w j es lt =
    let no : leb v w ≡ false = ground arith in mem_put-∷ v i w j es ∙ rw no refl

pub mem_put_sound :
    (b v i : ℕ) (es : List (ℕ × ℕ))
    → IsSortedFrom b es
    → b ≤ v
    → mem_get v es ≡ none
    → IsSortedFrom b (mem_put v i es)
mem_put_sound b v i [] h le fresh = rw (mem_put-[] v i) (le, tt)
mem_put_sound b v i ((w, j) ∷ es) (lo, h) le fresh = elim (mem_get_apart v w j es fresh) [
  | inl lt ↦ rw (mem_put_before v i w j es lt) (le, (omega arith, h))
  | inr (gt, fresh') ↦
      rw (mem_put_after v i w j es gt) (lo, mem_put_sound (suc w) v i es h (omega arith) fresh')
]

pub mem_get_put :
    (b u v i : ℕ) (es : List (ℕ × ℕ))
    → IsSortedFrom b es
    → mem_get v es ≡ none
    → mem_get u (mem_put v i es) ≡ (if u == v then some i else mem_get u es)
mem_get_put b u v i [] h fresh =
    rw (mem_put-[] v i, mem_get-∷ u v i [], mem_get-[] u) (ground arith)
mem_get_put b u v i ((w, j) ∷ es) (lo, h) fresh = elim (mem_get_apart v w j es fresh) [
  | inl lt ↦
      rw (mem_put_before v i w j es lt, mem_get-∷ u v i ((w, j) ∷ es))
        (ground (arith, mem_get_before u w j es))
  | inr (gt, fresh') ↦
      rw
        (
          mem_put_after v i w j es gt,
          mem_get-∷ u w j (mem_put v i es),
          mem_get-∷ u w j es,
          mem_get_put (suc w) u v i es h fresh',
        )
        (ground arith)
]

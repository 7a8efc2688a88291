-- ===== src/Zk/Indexed/Neighbours.antt =====
-- The successor of a value in an index of zk/indexed, before and after `Put`.
use earth_network_chain.Base.{
  ℕ, ◌≤◌, ◌<◌, ◌≡◌, ◌≢◌, refl, sym, subst, ap₂, ◌∙◌, leb, ◌==◌, ==_iff, ==_self, ==_ne,
  if◌then◌else◌, none, some, arith, Bool-cases, Option-cases, inl, inr, ◌⊎◌,
}
use earth_network_chain.Zk.Indexed.{Index, IsIndex, succ, pred}

module _ (x : Index) (laws : IsIndex x) where
  open x use {State, get, below, above, put}

  -- A value of the index, or the sentinel's 0.
  abbrev pub Holds : State → ℕ → ℕ → Type 0
  Holds s u i = (get u s ≡ some i) ⊎ ((u ≡ 0) × (i ≡ 0))

  same_index : (s : State) (w i j : ℕ) → get w s ≡ some i → get w s ≡ some j → i ≡ j
  same_index s w i j p q = cc

  -- The least value above another is the one that `Above` returns.
  pub above-least :
      (u w i : ℕ) (s : State)
      → laws.IsSound s
      → get w s ≡ some i
      → u < w
      → ((z j : ℕ) → get z s ≡ some j → u < z → w ≤ z)
      → above u s ≡ some (w, i)
  above-least u w i s sound e lt least = elim (Option-cases (above u s)) [
    | inl nothing ↦ absurd (omega (arith, laws.above_none u s sound nothing w i e, lt))
    | inr ((w', i'), found) ↦
        let (e', lt', least') = laws.above_some u w' i' s sound found in
        let same : w' ≡ w = omega (arith, least w' i' e' lt', least' w i e lt) in
        let there : get w s ≡ some i' = subst (λ z. get z s ≡ some i') same e' in
        let same_i : i' ≡ i = cc in found ∙ ap₂ (λ a b. some (a, b)) same same_i
  ]

  pub above-greatest :
      (u : ℕ) (s : State)
      → laws.IsSound s
      → ((z j : ℕ) → get z s ≡ some j → z ≤ u)
      → above u s ≡ none
  above-greatest u s sound greatest = elim (Option-cases (above u s)) [
    | inl nothing ↦ nothing
    | inr ((w, i), found) ↦
        let (e, lt, least) = laws.above_some u w i s sound found in
        absurd (omega (arith, greatest w i e, lt))
  ]

  held_le : (s : State) (u j w : ℕ) → Holds s u j → (get u s ≡ some j → u ≤ w) → u ≤ w
  held_le s u j w (inl e) f = f e
  held_le s u j w (inr (z, zi)) f = omega arith

  -- The predecessor is held, below the value, and nothing held lies between the two.
  pub pred_lem :
      (v : ℕ) (s : State)
      → laws.IsSound s
      → 0 < v
      → Holds s (pred x v s).0 (pred x v s).1
        × ((pred x v s).0 < v)
        × ((u j : ℕ) → Holds s u j → u < v → u ≤ (pred x v s).0)
  pred_lem v s sound pos = elim (Option-cases (below v s)) [
    | inl nothing ↦
        rw (nothing, pred)
          (
            inr (refl, refl),
            pos,
            λ u j h lt.
                held_le s u j 0 h
                  (λ e. absurd (omega (arith, laws.below_none v s sound nothing u j e))),
          )
    | inr ((w, i), found) ↦
        let (e, lt, most) = laws.below_some v w i s sound found in
        rw (found, pred) (inl e, lt, λ u j h lu. held_le s u j w h (λ e'. most u j e' lu))
  ]

  -- The index once a new value is put.
  module _ (v idx : ℕ) (s : State) (sound : laws.IsSound s) (fresh : get v s ≡ none)
      (pos : 0 < v) where
    abbrev pub after : State
    after = put v idx s

    pub after_sound : laws.IsSound after
    after_sound = laws.put_sound v idx s sound fresh

    pub get-after_self : get v after ≡ some idx
    get-after_self = laws.get_put v v idx s sound fresh ∙ rw (==_self v) refl

    pub get-after_ne : (u : ℕ) → u ≢ v → get u after ≡ get u s
    get-after_ne u ne = laws.get_put u v idx s sound fresh ∙ rw (==_ne u v ne) refl

    -- What is held after is the new value, or was held before.
    pub held_before : (u i : ℕ) → get u after ≡ some i → ((u ≡ v) × (i ≡ idx)) ⊎ (get u s ≡ some i)
    held_before u i e = elim (Bool-cases (u == v)) [
      | inl same ↦
          let e' : (if u == v then some idx else get u s) ≡ some i =
            sym (laws.get_put u v idx s sound fresh) ∙ e in
          let e'' = rw same at e' in inl ((==_iff u v).0 same, cc)
      | inr other ↦
          let e' : (if u == v then some idx else get u s) ≡ some i =
            sym (laws.get_put u v idx s sound fresh) ∙ e in
          inr (rw other at e')
    ]

    -- The successors after: the new value follows its predecessor, has the successor that it would
    -- have had, and every other value keeps its own.
    pub succ-after_low : succ x (pred x v s).0 after ≡ (v, idx)
    succ-after_low =
        let (held, lt, most) = pred_lem v s sound pos in
        rw
          (
            above-least (pred x v s).0 v idx after after_sound get-after_self lt
                (λ z j e lz. least z j lz (held_before z j e)),
            succ,
          )
          refl
      where
        least : (z j : ℕ) → (pred x v s).0 < z → ((z ≡ v) × (j ≡ idx)) ⊎ (get z s ≡ some j) → v ≤ z
        least z j lz (inl (same, _)) = omega arith
        least z j lz (inr e) = elim (Bool-cases (leb v z)) [
          | inl le ↦ ground arith
          | inr gt ↦ absurd (omega (arith, (pred_lem v s sound pos).2 z j (inl e) (ground arith)))
        ]

    -- A successor stays where the new value does not come in between.
    succ_kept :
        (u : ℕ)
        → ((w i : ℕ) → above u s ≡ some (w, i) → u < v → w ≤ v)
        → (above u s ≡ none → v ≤ u)
        → succ x u after ≡ succ x u s
    succ_kept u over beyond = elim (Option-cases (above u s)) [
      | inl nothing ↦
          rw
            (
              above-greatest u after after_sound
                  (λ z j e. greatest nothing z j (held_before z j e)),
              nothing,
              succ,
            )
            refl
      | inr ((w, i), found) ↦
          let (e, lt, least) = laws.above_some u w i s sound found in
          rw
            (
              above-least u w i after after_sound (get-after_ne w (λ q. absurd (taken q e)) ∙ e) lt
                  (λ z j ez lz. above_new w i found least z j lz (held_before z j ez)),
              found,
              succ,
            )
            refl
    ]
      where
        taken : {w i : ℕ} → w ≡ v → get w s ≡ some i → ⊥
        taken q e = cc

        greatest : above u s ≡ none → (z j : ℕ) → ((z ≡ v) × (j ≡ idx)) ⊎ (get z s ≡ some j) → z ≤ u
        greatest nothing z j (inl (same, _)) = omega (arith, beyond nothing)
        greatest nothing z j (inr e) = laws.above_none u s sound nothing z j e

        above_new :
            (w i : ℕ)
            → above u s ≡ some (w, i)
            → ((y k : ℕ) → get y s ≡ some k → u < y → w ≤ y)
            → (z j : ℕ) → u < z
            → ((z ≡ v) × (j ≡ idx)) ⊎ (get z s ≡ some j)
            → w ≤ z
        above_new w i found least z j lz (inl (same, _)) = omega (arith, over w i found)
        above_new w i found least z j lz (inr e) = least z j e lz

    pub succ-after_new : succ x v after ≡ succ x v s
    succ-after_new = succ_kept v (λ w i e lt. absurd (omega arith)) (λ e. omega arith)

    -- The predecessor is in the index where something held is below it.
    low_held : (u : ℕ) → u < (pred x v s).0 → get (pred x v s).0 s ≡ some (pred x v s).1
    low_held u lt = stored (pred_lem v s sound pos).0
      where
        stored : Holds s (pred x v s).0 (pred x v s).1 → get (pred x v s).0 s ≡ some (pred x v s).1
        stored (inl e) = e
        stored (inr (z, _)) = absurd (omega arith)

    pub succ-after_other :
        (u i : ℕ) → Holds s u i → u ≢ (pred x v s).0 → u ≢ v → succ x u after ≡ succ x u s
    succ-after_other u i h ne nv =
        let (held, lt, most) = pred_lem v s sound pos in
        succ_kept u
          (λ w j found lv.
            let under : u < (pred x v s).0 = grind (arith, most u i h) in
            let (e, _, least) = laws.above_some u w j s sound found in
            omega (arith, least (pred x v s).0 (pred x v s).1 (low_held u under) under))
          (λ nothing. elim (Bool-cases (leb v u)) [
            | inl le ↦ ground arith
            | inr gt ↦
                let lv : u < v = ground arith in
                let under : u < (pred x v s).0 = grind (arith, most u i h) in
                absurd (
                  omega (
                    arith,
                    laws.above_none u s sound nothing (pred x v s).0 (pred x v s).1
                        (low_held u under),
                  ))
          ])

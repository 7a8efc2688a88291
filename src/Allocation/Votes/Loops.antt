-- ===== src/Allocation/Votes/Loops.antt =====
-- The two loops of `writeVoter`: what comes off the options and what goes on.
use earth_network_chain.Base.{
  ℕ, ◌+◌, ◌≤◌, ◌≡◌, refl, sym, subst, ap, ◌∙◌, true, false, ◌==◌, ==_iff, if◌then◌else◌, none, some,
  List, [], ◌∷◌, arith, Bool-cases, Option-cases, inl, inr, ◌⊎◌,
}
use earth_network_chain.Base.Int.{ℤ, pos, pos_part, neg_part, ◌+ℤ◌, ◌-ℤ◌, -ℤ_pos, +ℤ_pos}
use earth_network_chain.Base.Maps.{Map, get, sum_by, sum_by-remove, get-Every}
use earth_network_chain.Allocation.State.{Stream, AllocationOption, Store, stream_of}
use earth_network_chain.Allocation.Coins.{Coins}
use earth_network_chain.Allocation.Booked.{weight, IsKept}
use earth_network_chain.Allocation.Writes.{at-some}
use earth_network_chain.Allocation.Options.{set_option, settle_option}
use earth_network_chain.Allocation.Votes.{Contribution, move_one, move_each}
use earth_network_chain.Allocation.Votes.Moves.{
  given, live, live_part, Moves, Covers, Tracked, Votes, reweighed-Tracked, reweighed_live,
}

-- A contribution to an option that is gone or struck moves nothing.
not_live :
    (id i n : ℕ) (m : Map AllocationOption)
    → live id m ≡ none
    → live i m ≡ some n
    → (i == id) ≡ false
not_live id i n m gone there = elim (Bool-cases (i == id)) [
  | inl same ↦ absurd (taken (ap (λ j. live j m) ((==_iff i id).0 same)))
  | inr other ↦ other
]
  where
    taken : live i m ≡ live id m → ⊥
    taken p = cc

take_none :
    (c : Contribution) (m : Map AllocationOption) → live c.option m ≡ none → Moves (c ∷ []) [] m m
take_none c m gone id n there = (n, there, ground (arith, not_live c.option id n m gone there))

put_none :
    (c : Contribution) (m : Map AllocationOption) → live c.option m ≡ none → Moves [] (c ∷ []) m m
put_none c m gone id n there = (n, there, ground (arith, not_live c.option id n m gone there))

-- A live option's weight is in the sum.
fits :
    (id : ℕ) (o : AllocationOption) (m : Map AllocationOption)
    → get id m ≡ some o
    → pos_part o.amount_allocated ≤ sum_by weight m
fits id o m e = omega (arith, sum_by-remove weight id m, at-some weight id o m e)

live-some :
    (id : ℕ) (o : AllocationOption) (m : Map AllocationOption)
    → get id m ≡ some o
    → o.removed ≡ false
    → live id m ≡ some (pos_part o.amount_allocated)
live-some id o m e present = ap live_part e ∙ rw present refl

live-struck :
    (id : ℕ) (o : AllocationOption) (m : Map AllocationOption)
    → get id m ≡ some o
    → o.removed ≡ true
    → live id m ≡ none
live-struck id o m e gone = ap live_part e ∙ rw gone refl

pub live-cases :
    (id : ℕ) (m : Map AllocationOption)
    → (live id m ≡ none) ⊎ (o : AllocationOption) × (get id m ≡ some o) × (o.removed ≡ false)
live-cases id m = elim (Option-cases (get id m)) [
  | inl absent ↦ inl (ap live_part absent)
  | inr (o, e) ↦ elim (Bool-cases o.removed) [
    | inl gone ↦ inl (live-struck id o m e gone)
    | inr present ↦ inr (o, e, present)
  ]
]

-- The branches of one move.
module _ (now : ℕ) (st : Stream) (index : ℕ) (op : ℤ → ℤ → ℤ) (c : Contribution) (total : ℤ)
    (s : Store) where
  pub move_one-gone :
      live c.option (stream_of st s).options ≡ none
      → move_one now st index op c total s ≡ (total, s)
  unfolding move_one
  move_one-gone gone = elim (Option-cases (get c.option (stream_of st s).options)) [
    | inl absent ↦ rw (absent, move_one) refl
    | inr (o, e) ↦ elim (Bool-cases o.removed) [
      | inl struck ↦ rw (e, move_one, struck) refl
      | inr present ↦ absurd (alive (live-some c.option o (stream_of st s).options e present))
    ]
  ]
    where
      alive : {n : ℕ} → live c.option (stream_of st s).options ≡ some n → ⊥
      alive p = cc

  pub move_one-live :
      (o : AllocationOption)
      → get c.option (stream_of st s).options ≡ some o
      → o.removed ≡ false
      → move_one now st index op c total s ≡ (
        op total (pos c.amt),
        set_option now st
            (record (settle_option o index) {
              amount_allocated = op o.amount_allocated (pos c.amt);
            })
            s,
      )
  unfolding move_one
  move_one-live o e present = rw (e, move_one, present) refl

-- One option's weight changes, by what comes off it and goes on it.
one_moved :
    (off on : List Contribution) (id a old : ℕ) (m m' : Map AllocationOption)
    → live id m ≡ some old
    → ((i : ℕ) → live i m' ≡ (if i == id then some a else live i m))
    → a + given id off ≡ old + given id on
    → ((i : ℕ) → (i == id) ≡ false → (given i off ≡ 0) × (given i on ≡ 0))
    → Moves off on m m'
one_moved off on id a old m m' there after e rest i n' here = elim (Bool-cases (i == id)) [
  | inl same ↦
      let ei : i ≡ id = (==_iff i id).0 same in
      let en : some a ≡ some n' = sym (after i ∙ rw same refl) ∙ here in
      let ea : a ≡ n' = cc in (old, ap (λ j. live j m) ei ∙ there, rw ei (omega (arith, e, ea)))
  | inr other ↦
      let en : live i m ≡ some n' = sym (after i ∙ rw other refl) ∙ here in
      (n', en, omega (arith, rest i other))
]

module _ (k : Coins) (st : Stream) (b : k.State) (s0 : Store) where
  abbrev pub options_of : Store → Map AllocationOption
  options_of s = (stream_of st s).options

  -- One contribution comes off an option that covers it, or off none.
  abbrev Takes : Contribution → Store → ℤ × Store → Type 0
  Takes c s r = Tracked k st b s0 (r.0) (r.1) × Moves (c ∷ []) [] (options_of s) (options_of (r.1))

  abbrev Puts : Contribution → Store → ℤ × Store → Type 0
  Puts c s r = Tracked k st b s0 (r.0) (r.1) × Moves [] (c ∷ []) (options_of s) (options_of (r.1))

  module _ (now : ℕ) (c : Contribution) (total : ℤ) (s : Store) (t : Tracked k st b s0 total s)
      (o : AllocationOption) (e : get c.option (options_of s) ≡ some o)
      (present : o.removed ≡ false) where
    amount_nonneg : neg_part o.amount_allocated ≡ 0
    amount_nonneg =
        (get-Every (IsKept (stream_of st s).reward_index) c.option o (options_of s)
          (t.solvent.booked st).kept e).nonneg

    take_live :
        c.amt ≤ pos_part o.amount_allocated
        → Takes c s (
          total -ℤ pos c.amt,
          set_option now st
              (record (settle_option o (stream_of st s).reward_index) {
                amount_allocated = o.amount_allocated -ℤ pos c.amt;
              })
              s,
        )
    take_live le =
        let a = -ℤ_pos o.amount_allocated c.amt amount_nonneg le in
        let f =
          -ℤ_pos total c.amt t.nonneg
            (omega (arith, le, t.sum, fits c.option o (options_of s) e)) in
        let follows : pos_part (total -ℤ pos c.amt) + pos_part o.amount_allocated
            ≡ pos_part total + pos_part (o.amount_allocated -ℤ pos c.amt) =
          omega (arith, a, f) in
        (
          reweighed-Tracked k st b s0 now c.option o (o.amount_allocated -ℤ pos c.amt) total
              (total -ℤ pos c.amt) s t e present (a.0) (f.0) follows,
          one_moved (c ∷ []) [] c.option (pos_part (o.amount_allocated -ℤ pos c.amt))
              (pos_part o.amount_allocated) (options_of s) _
              (live-some c.option o (options_of s) e present)
              (reweighed_live k st b s0 now c.option o (o.amount_allocated -ℤ pos c.amt) total
                (total -ℤ pos c.amt) s t e present (a.0) (f.0) follows)
              (ground (arith, a)) (λ i ne. (rw ne refl, refl)),
        )

    put_live : Puts c s (
      total +ℤ pos c.amt,
      set_option now st
          (record (settle_option o (stream_of st s).reward_index) {
            amount_allocated = o.amount_allocated +ℤ pos c.amt;
          })
          s,
    )
    put_live =
        let a = +ℤ_pos o.amount_allocated c.amt amount_nonneg in
        let f = +ℤ_pos total c.amt t.nonneg in
        let follows : pos_part (total +ℤ pos c.amt) + pos_part o.amount_allocated
            ≡ pos_part total + pos_part (o.amount_allocated +ℤ pos c.amt) =
          omega (arith, a, f) in
        (
          reweighed-Tracked k st b s0 now c.option o (o.amount_allocated +ℤ pos c.amt) total
              (total +ℤ pos c.amt) s t e present (a.0) (f.0) follows,
          one_moved [] (c ∷ []) c.option (pos_part (o.amount_allocated +ℤ pos c.amt))
              (pos_part o.amount_allocated) (options_of s) _
              (live-some c.option o (options_of s) e present)
              (reweighed_live k st b s0 now c.option o (o.amount_allocated +ℤ pos c.amt) total
                (total +ℤ pos c.amt) s t e present (a.0) (f.0) follows)
              (ground (arith, a)) (λ i ne. (refl, rw ne refl)),
        )

  take_one-Takes :
      (now : ℕ) (c : Contribution) (cs : List Contribution) (total : ℤ) (s : Store)
      → Tracked k st b s0 total s
      → Covers (c ∷ cs) (options_of s)
      → Takes c s (move_one now st (stream_of st s).reward_index ◌-ℤ◌ c total s)
  take_one-Takes now c cs total s t covers = elim (live-cases c.option (options_of s)) [
    | inl gone ↦
        subst (Takes c s)
          (sym (move_one-gone now st (stream_of st s).reward_index ◌-ℤ◌ c total s gone))
          (t, take_none c (options_of s) gone)
    | inr (o, e, present) ↦
        subst (Takes c s)
          (sym (move_one-live now st (stream_of st s).reward_index ◌-ℤ◌ c total s o e present))
          (take_live now c total s t o e present (
            ground (
              arith,
              covers c.option (pos_part o.amount_allocated)
                  (live-some c.option o (options_of s) e present),
            )))
  ]

  put_one-Puts :
      (now : ℕ) (c : Contribution) (total : ℤ) (s : Store)
      → Tracked k st b s0 total s
      → Puts c s (move_one now st (stream_of st s).reward_index ◌+ℤ◌ c total s)
  put_one-Puts now c total s t = elim (live-cases c.option (options_of s)) [
    | inl gone ↦
        subst (Puts c s)
          (sym (move_one-gone now st (stream_of st s).reward_index ◌+ℤ◌ c total s gone))
          (t, put_none c (options_of s) gone)
    | inr (o, e, present) ↦
        subst (Puts c s)
          (sym (move_one-live now st (stream_of st s).reward_index ◌+ℤ◌ c total s o e present))
          (put_live now c total s t o e present)
  ]

  same_index :
      {total total' : ℤ} {s s' : Store}
      → Tracked k st b s0 total s
      → Tracked k st b s0 total' s'
      → (stream_of st s).reward_index ≡ (stream_of st s').reward_index
  same_index t t' = ap index_of (t.same ∙ sym t'.same)
    where
      index_of : Votes → ℕ
      index_of v = v.reward_index

  -- The first loop: everything comes off, where the options cover it.
  pub take_each-Moves :
      (now index : ℕ) (cs : List Contribution) (total : ℤ) (s : Store)
      → index ≡ (stream_of st s).reward_index
      → Tracked k st b s0 total s
      → Covers cs (options_of s)
      → let r = move_each now st index ◌-ℤ◌ cs total s in
        Tracked k st b s0 (r.0) (r.1) × Moves cs [] (options_of s) (options_of (r.1))
  unfolding move_each
  take_each-Moves now index [] total s ei t covers = (t, λ id n' there. (n', there, refl))
  take_each-Moves now index (c ∷ cs) total s ei t covers =
      let r = move_one now st index ◌-ℤ◌ c total s in
      let (t1, step) : Takes c s r =
        subst (λ i. Takes c s (move_one now st i ◌-ℤ◌ c total s)) (sym ei)
          (take_one-Takes now c cs total s t covers) in
      let (t2, rest) =
        take_each-Moves now index cs (r.0) (r.1) (ei ∙ same_index t t1) t1 (λ id n' there.
          let (n, before, e) = step id n' there in omega (arith, e, covers id n before)) in
      (
        t2,
        λ id n' there.
            let (n1, mid, e2) = rest id n' there in
            let (n, before, e1) = step id n1 mid in (n, before, omega (arith, e1, e2)),
      )

  -- The second loop.
  pub put_each-Moves :
      (now index : ℕ) (cs : List Contribution) (total : ℤ) (s : Store)
      → index ≡ (stream_of st s).reward_index
      → Tracked k st b s0 total s
      → let r = move_each now st index ◌+ℤ◌ cs total s in
        Tracked k st b s0 (r.0) (r.1) × Moves [] cs (options_of s) (options_of (r.1))
  unfolding move_each
  put_each-Moves now index [] total s ei t = (t, λ id n' there. (n', there, refl))
  put_each-Moves now index (c ∷ cs) total s ei t =
      let r = move_one now st index ◌+ℤ◌ c total s in
      let (t1, step) : Puts c s r =
        subst (λ i. Puts c s (move_one now st i ◌+ℤ◌ c total s)) (sym ei)
          (put_one-Puts now c total s t) in
      let (t2, rest) = put_each-Moves now index cs (r.0) (r.1) (ei ∙ same_index t t1) t1 in
      (
        t2,
        λ id n' there.
            let (n1, mid, e2) = rest id n' there in
            let (n, before, e1) = step id n1 mid in (n, before, omega (arith, e1, e2)),
      )

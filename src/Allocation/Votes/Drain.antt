-- ===== src/Allocation/Votes/Drain.antt =====
-- `SweepLapses` of x/allocation ends, and leaves no lease due.
use earth_network_chain.Base.{
  ℕ, zero, suc, ◌*◌, ◌/◌, ◌≤◌, ◌<◌, ◌≡◌, refl, sym, subst, ap, ◌∙◌, Bool, true, false, not, ◌&&◌,
  ltb, leb, ◌==◌, if◌then◌else◌, Option, none, some, Result, List, [], ◌∷◌, length, arith,
  Bool-cases, Option-cases, inl, inr, ok,
}
use earth_network_chain.Base.Maps.{Every}
use earth_network_chain.Allocation.State.{Stream, StreamState, Store, stream_of, nanos_per_second}
use earth_network_chain.Allocation.Coins.{Coins}
use earth_network_chain.Allocation.Emission.{next_lapse, settle_to}
use earth_network_chain.Allocation.Live.{settle_to-Returns}
use earth_network_chain.Allocation.Votes.Settled.{settle_to-Each}
use earth_network_chain.Allocation.Votes.Lapses.{
  lapse_retry_at, due_at, lapse_one, lapse_each, lapse, settle_before, sweep_loop, sweep_lapses,
}
use earth_network_chain.Allocation.Votes.Queue.{
  IsOrdered, due_count, due_count-length, due_count-from, due_count-le, AreAt, due_at-AreAt,
}
use earth_network_chain.Allocation.Votes.Sweep.{
  queue, Retiring, remove-Retiring, insert-Retiring, queue-requeued, retire-Retiring,
}

module _ (fails : ℕ → ℕ → Store → Bool) (now : ℕ) (st : Stream) where
  lapse_one-Retiring :
      (t addr : ℕ) (addrs : List ℕ) (q : List (ℕ × ℕ)) (s : Store)
      → Retiring now t (addr ∷ addrs) q (queue st s)
      → Retiring now t addrs q (queue st (lapse_one fails now st t addr s))
  unfolding lapse_one
  lapse_one-Retiring t addr addrs q s h = elim (Bool-cases (fails t addr s)) [
    | inr retired ↦ rw retired (retire-Retiring now st t addr addrs q s h)
    | inl failed ↦ rw failed (
        subst (Retiring now t addrs q) (sym (queue-requeued st _ s)) (
          insert-Retiring now t (lapse_retry_at now t) addr addrs q _ (ground arith) (ground arith)
            (remove-Retiring now t addr addrs q (queue st s) h)))
  ]

  lapse_each-Retiring :
      (t : ℕ) (addrs : List ℕ) (q : List (ℕ × ℕ)) (s : Store)
      → Retiring now t addrs q (queue st s)
      → Retiring now t [] q (queue st (lapse_each fails now st t addrs s))
  unfolding lapse_each
  lapse_each-Retiring t [] q s h = h
  lapse_each-Retiring t (addr ∷ addrs) q s h =
      lapse_each-Retiring t addrs q (lapse_one fails now st t addr s)
        (lapse_one-Retiring t addr addrs q s h)

  lapse-Retiring :
      (t : ℕ) (s : Store)
      → IsOrdered (queue st s)
      → Every (λ u b. t ≤ u) (queue st s)
      → Retiring now t [] (queue st s) (queue st (lapse fails now st t s))
  unfolding lapse
  lapse-Retiring t s ordered least =
      lapse_each-Retiring t (due_at t (queue st s)) (queue st s) s (record {
        ordered = ordered;
        least = least;
        left = due_at-AreAt t (queue st s);
        fewer = omega arith;
      })

-- Nothing is left at the time of a lapse, and nothing before it.
later : (t : ℕ) (q : List (ℕ × ℕ)) → Every (λ u b. t ≤ u) q → AreAt t [] q → Every (λ u b. t < u) q
later t [] least left = tt
later t ((u, b) ∷ q) (le, least) (none_left, left) = (
  elim (Bool-cases (u == t)) [
    | inl same ↦ cc (none_left (ground arith))
    | inr other ↦ ground arith
  ],
  later t q least left,
)

first_lease :
    (limit t : ℕ) (q : List (ℕ × ℕ))
    → IsOrdered q
    → elim q [ [] ↦ none | e ∷ r ↦ if leb e.0 limit then some e.0 else none ] ≡ some t
    → (t ≤ limit) × Every (λ u b. t ≤ u) q × (due_count (suc t) limit q < due_count 0 limit q)
first_lease limit t [] h e = cc
first_lease limit t ((u, b) ∷ q) (least, h) e = elim (Bool-cases (leb u limit)) [
  | inl due ↦
      let e' = rw due at e in
      let same : u ≡ t = cc in
      subst
        (λ z.
          (z ≤ limit)
          × Every (λ v c. z ≤ v) ((u, b) ∷ q)
          × (due_count (suc z) limit ((u, b) ∷ q) < due_count 0 limit ((u, b) ∷ q)))
        same (ground arith, (omega arith, least), counted (ground arith))
  | inr early ↦ let e' = rw early at e in cc
]
  where
    counted : u ≤ limit → due_count (suc u) limit ((u, b) ∷ q) < due_count 0 limit ((u, b) ∷ q)
    counted le =
        let none_counted : (leb (suc u) u) ≡ false = ground arith in
        let one_counted : (leb 0 u && leb u limit) ≡ true = ground (arith, le) in
        rw (none_counted, one_counted) (omega (arith, due_count-le (suc u) limit q))

-- The first lease of an ordered queue.
next_lapse-first :
    (x : StreamState) (limit t : ℕ)
    → IsOrdered x.voter_lapses
    → next_lapse x limit ≡ some t
    → (t ≤ limit)
      × Every (λ u b. t ≤ u) x.voter_lapses
      × (due_count (suc t) limit x.voter_lapses < due_count 0 limit x.voter_lapses)
unfolding next_lapse
next_lapse-first x limit t h e = first_lease limit t x.voter_lapses h e

over_lease :
    (limit t p : ℕ) (q : List (ℕ × ℕ))
    → Every (λ u b. p < u) q
    → elim q [ [] ↦ none | e ∷ r ↦ if leb e.0 limit then some e.0 else none ] ≡ some t
    → p < t
over_lease limit t p [] h e = cc
over_lease limit t p ((u, b) ∷ q) h e = elim (Bool-cases (leb u limit)) [
  | inl due ↦ let e' = rw due at e in let same : u ≡ t = cc in omega (arith, h.0, same)
  | inr early ↦ let e' = rw early at e in cc
]

-- A lease that comes after another is not left behind.
not_behind :
    (x : StreamState) (limit t : ℕ) (prev : Option ℕ)
    → ((p : ℕ) → prev ≡ some p → Every (λ u c. p < u) x.voter_lapses)
    → next_lapse x limit ≡ some t
    → (elim prev [ none ↦ false | some p ↦ leb t p ]) ≡ false
unfolding next_lapse
not_behind x limit t none after e = refl
not_behind x limit t (some p) after e =
    let lt : p < t = over_lease limit t p x.voter_lapses (after p refl) e in ground arith

-- After a lapse less is due, and nothing at its time or before.
lapse_progress :
    (fails : ℕ → ℕ → Store → Bool) (now : ℕ) (st : Stream) (t : ℕ) (s : Store)
    → IsOrdered (queue st s)
    → next_lapse (stream_of st s) now ≡ some t
    → (s' : Store) → queue st s' ≡ queue st s
    → let q' = queue st (lapse fails now st t s') in
      IsOrdered q' × Every (λ u b. t < u) q' × (due_count 0 now q' < due_count 0 now (queue st s))
lapse_progress fails now st t s h e s' same =
    let (le, least, less) = next_lapse-first (stream_of st s) now t h e in
    let r : Retiring now t [] (queue st s) (queue st (lapse fails now st t s')) =
      subst (λ q. Retiring now t [] q (queue st (lapse fails now st t s'))) same
        (lapse-Retiring fails now st t s' (subst IsOrdered (sym same) h)
          (subst (Every (λ u b. t ≤ u)) (sym same) least)) in
    let after = later t (queue st (lapse fails now st t s')) r.least r.left in
    (
      r.ordered,
      after,
      omega (
        arith,
        less,
        r.fewer,
        due_count-from (suc t) now (queue st (lapse fails now st t s')) after,
      ),
    )

module _ (fails : ℕ → ℕ → Store → Bool) (k : Coins)
    (mints : (n : ℕ) (b : k.State) → (b' : k.State) × (k.mint_coins n b ≡ some b'))
    (st : Stream) where
  open k use {State}

  settle_before-Returns :
      (at : ℕ) (s : Store) (b : State)
      → (r : Store × State) × (settle_before fails k st at s b ≡ ok r)
        × (queue st (r.0) ≡ queue st s)
  unfolding settle_before
  settle_before-Returns at s b =
      let last = (stream_of st s).last_upkeep in
      elim (Bool-cases (not (last == 0) && ltb last at)) [
        | inl behind ↦
            let (r, e) = settle_to-Returns k mints at st s b in
            (
              r,
              rw behind e,
              settle_to-Each (λ j x. x.voter_lapses ≡ queue j s) (λ j x n v. v) (λ j x n v. v) k at
                  st s b r (λ j. refl) e st,
            )
        | inr settled ↦ ((s, b), rw settled refl, refl)
      ]

  -- The sweep returns, and leaves no lease due at the block time.
  abbrev pub Drains : ℕ → Result (Store × State) → Type 0
  Drains now m = (r : Store × State) × (m ≡ ok r) × (next_lapse (stream_of st (r.0)) now ≡ none)

  settle_to-Drains :
      (nanos now : ℕ) (s : Store) (b : State)
      → next_lapse (stream_of st s) now ≡ none
      → Drains now (settle_to k nanos st s b)
  unfolding next_lapse
  settle_to-Drains nanos now s b drained =
      let (r, e) = settle_to-Returns k mints nanos st s b in
      let same : queue st (r.0) ≡ queue st s =
        settle_to-Each (λ j x. x.voter_lapses ≡ queue j s) (λ j x n v. v) (λ j x n v. v) k nanos st
          s b r (λ j. refl) e st in
      (
        r,
        e,
        ap (λ q. elim q [ [] ↦ none | c ∷ d ↦ if leb c.0 now then some c.0 else none ]) same
            ∙ drained,
      )

  -- A round with more rounds left than leases due.
  sweep_loop-Drains :
      (fuel nanos now : ℕ) (prev : Option ℕ) (s : Store) (b : State)
      → IsOrdered (queue st s)
      → ((p : ℕ) → prev ≡ some p → Every (λ u c. p < u) (queue st s))
      → due_count 0 now (queue st s) < fuel
      → Drains now (sweep_loop fails k fuel nanos now prev st s b)
  unfolding sweep_loop
  sweep_loop-Drains zero nanos now prev s b h after room = absurd (omega arith)
  sweep_loop-Drains (suc fuel) nanos now prev s b h after room =
      elim (Option-cases (next_lapse (stream_of st s) now)) [
        | inl drained ↦ rw (drained, sweep_loop) (settle_to-Drains nanos now s b drained)
        | inr (t, e) ↦
            let early : (elim prev [ none ↦ false | some p ↦ leb t p ]) ≡ false =
              not_behind (stream_of st s) now t prev after e in
            let (r, er, same) = settle_before-Returns (t * nanos_per_second) s b in
            let (h', after', less) = lapse_progress fails now st t s h e (r.0) same in
            let (m, em, done) =
              sweep_loop-Drains fuel nanos now (some t) (lapse fails now st t (r.0)) (r.1) h'
                (λ p ep.
                  let same_t : t ≡ p = cc in
                  subst (λ z. Every (λ u c. z < u) (queue st (lapse fails now st t (r.0)))) same_t
                    after')
                (omega (arith, less, room)) in
            (m, rw (e, sweep_loop, early, er) em, done)
      ]

  -- Where the bank mints what it is told to, `SweepLapses` of a stream whose queue is in order
  -- returns, whichever leases fail to retire: no lease is left behind, a round for each lease of the
  -- queue is enough, and no lease is due at the block time after it.
  pub sweep_lapses-Drains :
      (nanos : ℕ) (s : Store) (b : State)
      → IsOrdered (queue st s)
      → Drains (nanos / nanos_per_second) (sweep_lapses fails k nanos st s b)
  unfolding sweep_lapses
  sweep_lapses-Drains nanos s b h =
      sweep_loop-Drains (suc (length (queue st s))) nanos (nanos / nanos_per_second) none s b h
        (λ p e. cc) (omega (arith, due_count-length 0 (nanos / nanos_per_second) (queue st s)))

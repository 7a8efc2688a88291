-- ===== src/Allocation/Votes/Queue.antt =====
-- The lapse queue of x/allocation: its order, and what a removal and an insertion leave of it.
use earth_network_chain.Base.{
  ℕ, ◌+◌, ◌≤◌, ◌<◌, ◌≡◌, refl, true, ◌&&◌, ◌||◌, ltb, leb, ◌==◌, if◌then◌else◌, List, [], ◌∷◌,
  length, arith, Bool-cases, inl, inr,
}
use earth_network_chain.Base.Maps.{Every, Every-map}
use earth_network_chain.Allocation.Votes.{is_member, lapse_insert, lapse_remove}
use earth_network_chain.Allocation.Votes.Lapses.{due_at}

-- The queue is in the order of its times.
abbrev pub IsOrdered : List (ℕ × ℕ) → Type 0
IsOrdered [] = Unit
IsOrdered ((t, a) ∷ q) = Every (λ u b. t ≤ u) q × IsOrdered q

-- How many leases are due from one time to another.
abbrev pub due_count : ℕ → ℕ → List (ℕ × ℕ) → ℕ
due_count lo limit [] = 0
due_count lo limit ((t, a) ∷ q) = (if leb lo t && leb t limit then 1 else 0) + due_count lo limit q

module _ (P : ℕ → ℕ → Type 0) where
  pub remove-Every_lease :
      (t a : ℕ) (q : List (ℕ × ℕ)) → Every P q → Every P (lapse_remove (t, a) q)
  remove-Every_lease t a [] h = tt
  remove-Every_lease t a ((u, b) ∷ q) h = elim (Bool-cases (t == u && a == b)) [
    | inl same ↦ rw same (remove-Every_lease t a q h.1)
    | inr other ↦ rw other (h.0, remove-Every_lease t a q h.1)
  ]

  pub insert-Every_lease :
      (t a : ℕ) (q : List (ℕ × ℕ)) → P t a → Every P q → Every P (lapse_insert (t, a) q)
  insert-Every_lease t a [] p h = (p, tt)
  insert-Every_lease t a ((u, b) ∷ q) p h = elim (Bool-cases (ltb t u || (t == u && ltb a b))) [
    | inl first ↦ rw first (p, h)
    | inr after ↦ rw after (elim (Bool-cases (t == u && a == b)) [
      | inl same ↦ rw same h
      | inr other ↦ rw other (h.0, insert-Every_lease t a q p h.1)
    ])
  ]

pub remove-IsOrdered :
    (t a : ℕ) (q : List (ℕ × ℕ)) → IsOrdered q → IsOrdered (lapse_remove (t, a) q)
remove-IsOrdered t a [] h = tt
remove-IsOrdered t a ((u, b) ∷ q) h = elim (Bool-cases (t == u && a == b)) [
  | inl same ↦ rw same (remove-IsOrdered t a q h.1)
  | inr other ↦ rw other (remove-Every_lease (λ v c. u ≤ v) t a q h.0, remove-IsOrdered t a q h.1)
]

pub insert-IsOrdered :
    (t a : ℕ) (q : List (ℕ × ℕ)) → IsOrdered q → IsOrdered (lapse_insert (t, a) q)
insert-IsOrdered t a [] h = (tt, tt)
insert-IsOrdered t a ((u, b) ∷ q) h = elim (Bool-cases (ltb t u || (t == u && ltb a b))) [
  | inl first ↦
      let le : t ≤ u = ground arith in
      rw first ((le, Every-map (λ v c. u ≤ v) (λ v c. t ≤ v) q (λ v c g. omega arith) h.0), h)
  | inr after ↦ rw after (elim (Bool-cases (t == u && a == b)) [
    | inl same ↦ rw same h
    | inr other ↦
        rw other
          (insert-Every_lease (λ v c. u ≤ v) t a q (ground arith) h.0, insert-IsOrdered t a q h.1)
  ])
]

pub due_count-remove :
    (lo limit t a : ℕ) (q : List (ℕ × ℕ))
    → due_count lo limit (lapse_remove (t, a) q) ≤ due_count lo limit q
due_count-remove lo limit t a [] = omega arith
due_count-remove lo limit t a ((u, b) ∷ q) = elim (Bool-cases (t == u && a == b)) [
  | inl same ↦ rw same (omega (arith, due_count-remove lo limit t a q))
  | inr other ↦ rw other (omega (arith, due_count-remove lo limit t a q))
]

-- A lease that is not due yet.
pub due_count-insert :
    (lo limit t a : ℕ) (q : List (ℕ × ℕ))
    → limit < t
    → due_count lo limit (lapse_insert (t, a) q) ≡ due_count lo limit q
due_count-insert lo limit t a [] lt = ground arith
due_count-insert lo limit t a ((u, b) ∷ q) lt = elim (Bool-cases (ltb t u || (t == u && ltb a b))) [
  | inl first ↦ rw first (ground arith)
  | inr after ↦ rw after (elim (Bool-cases (t == u && a == b)) [
    | inl same ↦ rw same refl
    | inr other ↦ rw other (omega (arith, due_count-insert lo limit t a q lt))
  ])
]

pub due_count-length : (lo limit : ℕ) (q : List (ℕ × ℕ)) → due_count lo limit q ≤ length q
due_count-length lo limit [] = omega arith
due_count-length lo limit ((u, b) ∷ q) = ground (arith, due_count-length lo limit q)

-- The leases at a time are those of some addresses.
abbrev pub AreAt : ℕ → List ℕ → List (ℕ × ℕ) → Type 0
AreAt t addrs q = Every (λ u b. u ≡ t → is_member b addrs ≡ true) q

pub due_at-AreAt : (t : ℕ) (q : List (ℕ × ℕ)) → AreAt t (due_at t q) q
due_at-AreAt t [] = tt
due_at-AreAt t ((u, b) ∷ q) = (
  λ e. ground arith,
  Every-map (λ v c. v ≡ t → is_member c (due_at t q) ≡ true)
      (λ v c. v ≡ t → is_member c (due_at t ((u, b) ∷ q)) ≡ true) q (λ v c f e. ground (arith, f e))
      (due_at-AreAt t q),
)

-- Removing the lease of one of the addresses leaves those of the others.
pub remove-AreAt :
    (t a : ℕ) (addrs : List ℕ) (q : List (ℕ × ℕ))
    → AreAt t (a ∷ addrs) q
    → AreAt t addrs (lapse_remove (t, a) q)
remove-AreAt t a addrs [] h = tt
remove-AreAt t a addrs ((u, b) ∷ q) h = elim (Bool-cases (t == u && a == b)) [
  | inl same ↦ rw same (remove-AreAt t a addrs q h.1)
  | inr other ↦ rw other ((λ e. ground (arith, h.0 e)), remove-AreAt t a addrs q h.1)
]

-- Where nothing is due before a time, what is due is due from then on.
pub due_count-from :
    (lo limit : ℕ) (q : List (ℕ × ℕ))
    → Every (λ u b. lo ≤ u) q
    → due_count 0 limit q ≡ due_count lo limit q
due_count-from lo limit [] h = refl
due_count-from lo limit ((u, b) ∷ q) h = ground (arith, due_count-from lo limit q h.1, h.0)

pub due_count-le : (lo limit : ℕ) (q : List (ℕ × ℕ)) → due_count lo limit q ≤ due_count 0 limit q
due_count-le lo limit [] = omega arith
due_count-le lo limit ((u, b) ∷ q) = ground (arith, due_count-le lo limit q)

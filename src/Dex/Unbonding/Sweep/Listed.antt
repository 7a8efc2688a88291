-- ===== src/Dex/Unbonding/Sweep/Listed.antt =====
-- The entries that `SweepMaturedUnbondings` of x/dex/keeper/lp_unbonding.go works on, as entries of
-- the queue that changes meanwhile.
use earth_network_chain.Base.{
  no_value, ℕ, zero, suc, ◌≡◌, refl, sym, ap, ◌∙◌, inl, inr, false, ltb, none, some, [], ◌∷◌,
  Bool-cases,
}
use earth_network_chain.Dex.Unbonding.{LpUnbonding, UnbondKey, Queue, key_eq, get_entry}
use earth_network_chain.Dex.Unbonding.Entries.{IsUnique, key_eq_self, key_eq_comm, key_eq→≡}
use earth_network_chain.Dex.Unbonding.Sweep.{due_entries}

-- Entries of the queue, each at its own key.
abbrev pub Listed : Queue → Queue → Type 0
Listed [] q = Unit {0}
Listed (e ∷ due) q = (get_entry e.0 q ≡ some e.1) × (get_entry e.0 due ≡ none) × Listed due q

-- An entry that is not looked up changes nothing.
pub Listed-keep :
    (key : UnbondKey) (due q q' : Queue)
    → ((j : UnbondKey) → key_eq j key ≡ false → get_entry j q' ≡ get_entry j q)
    → get_entry key due ≡ none
    → Listed due q
    → Listed due q'
Listed-keep key [] q q' same apart h = tt
Listed-keep key (e ∷ due) q q' same apart h = elim (Bool-cases (key_eq key e.0)) [
  | inl there ↦ let bad = rw there at apart in cc
  | inr differ ↦ (
    same e.0 (key_eq_comm key e.0 differ) ∙ h.0,
    h.1,
    Listed-keep key due q q' same (rw differ at apart) h.2,
  )
]

-- A free key is none of those listed.
pub free-apart :
    (key : UnbondKey) (due q : Queue)
    → get_entry key q ≡ none
    → Listed due q
    → get_entry key due ≡ none
free-apart key [] q free h = refl
free-apart key (e ∷ due) q free h = elim (Bool-cases (key_eq key e.0)) [
  | inl there ↦
      absurd (no_value (sym free ∙ (ap (λ j. get_entry j q) (key_eq→≡ key e.0 there) ∙ h.0)))
  | inr differ ↦ rw differ (free-apart key due q free h.2)
]

Listed-more :
    (e : UnbondKey × LpUnbonding) (due q : Queue)
    → get_entry e.0 q ≡ none
    → Listed due q
    → Listed due (e ∷ q)
Listed-more e [] q apart h = tt
Listed-more e (f ∷ due) q apart h = elim (Bool-cases (key_eq f.0 e.0)) [
  | inl same ↦
      absurd (no_value (sym apart ∙ (ap (λ j. get_entry j q) (sym (key_eq→≡ f.0 e.0 same)) ∙ h.0)))
  | inr differ ↦ (rw differ h.0, h.1, Listed-more e due q apart h.2)
]

pub due-absent :
    (limit now : ℕ) (key : UnbondKey) (q : Queue)
    → get_entry key q ≡ none
    → get_entry key (due_entries limit now q) ≡ none
unfolding due_entries
due-absent zero now key q absent = refl
due-absent (suc limit) now key [] absent = refl
due-absent (suc limit) now key (e ∷ q) absent = elim (Bool-cases (key_eq key e.0)) [
  | inl same ↦ let bad = rw same at absent in cc
  | inr differ ↦ elim (Bool-cases (ltb now e.0.time)) [
    | inl early ↦ rw early refl
    | inr due ↦ rw (due, differ) (due-absent limit now key q (rw differ at absent))
  ]
]

-- The entries that a sweep collects are entries of the queue.
pub due_entries-Listed :
    (limit now : ℕ) (q : Queue) → IsUnique q → Listed (due_entries limit now q) q
unfolding due_entries
due_entries-Listed zero now q h = tt
due_entries-Listed (suc limit) now [] h = tt
due_entries-Listed (suc limit) now (e ∷ q) h = elim (Bool-cases (ltb now e.0.time)) [
  | inl early ↦ rw early tt
  | inr due ↦ rw due (
    rw (key_eq_self e.0) refl,
    due-absent limit now e.0 q h.0,
    Listed-more e (due_entries limit now q) q h.0 (due_entries-Listed limit now q h.1),
  )
]

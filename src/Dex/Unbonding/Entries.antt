-- ===== src/Dex/Unbonding/Entries.antt =====
-- The collection `LpUnbondings` of x/dex/keeper/lp_unbonding.go as a map, and sums over it.
use Prim.Native.String.{String}
use text.Mathlib.Text.{◌==◌ as str_eq}
use text.Mathlib.TextEquality.{eq_iff}
use text.Mathlib.TextPositions.{eq_refl}
use earth_network_chain.Base.{
  ℕ, ◌+◌, ◌≡◌, refl, sym, subst, arith, inl, inr, Bool, true, false, ◌&&◌, ◌==◌, ◌∙◌, none, some,
  [], ◌∷◌, Bool-cases, Option-cases, ==_iff, ==_self,
}
use earth_network_chain.Dex.Bank.{part}
use earth_network_chain.Dex.Unbonding.{
  LpUnbonding, UnbondKey, Queue, key_eq, key_lt, get_entry, has_entry, delete_entry, replace_entry,
  insert_entry, put_entry,
}

pub key_eq_self : (a : UnbondKey) → key_eq a a ≡ true
key_eq_self a = rw (==_self a.time, ==_self a.pool, eq_refl a.owner) refl

and-true : (a b : Bool) → (a && b) ≡ true → (a ≡ true) × (b ≡ true)
and-true true true e = (refl, refl)
and-true true false e = cc
and-true false b e = cc

pub key_eq→≡ : (a b : UnbondKey) → key_eq a b ≡ true → a ≡ b
key_eq→≡ a b e =
    let f = and-true (a.time == b.time && a.pool == b.pool) (str_eq a.owner b.owner) e in
    let g = and-true (a.time == b.time) (a.pool == b.pool) f.0 in
    let t = (==_iff a.time b.time).0 g.0 in
    let p = (==_iff a.pool b.pool).0 g.1 in
    let o = (eq_iff a.owner b.owner).0 f.1 in λ i. record { time = t i; pool = p i; owner = o i }

pub key_eq_comm : (a b : UnbondKey) → key_eq a b ≡ false → key_eq b a ≡ false
key_eq_comm a b e = elim (Bool-cases (key_eq b a)) [
  | inr other ↦ other
  | inl same ↦ let back = rw (key_eq→≡ b a same, key_eq_self a) at e in cc
]

-- Each key once.
abbrev pub IsUnique : Queue → Type 0
IsUnique [] = Unit {0}
IsUnique (e ∷ q) = (get_entry e.0 q ≡ none) × IsUnique q

pub get-other :
    (j : UnbondKey) (e : UnbondKey × LpUnbonding) (q : Queue)
    → key_eq j e.0 ≡ false
    → get_entry j (e ∷ q) ≡ get_entry j q
get-other j e q differ = rw differ refl

pub get-delete_ne :
    (j key : UnbondKey) (q : Queue)
    → key_eq j key ≡ false
    → get_entry j (delete_entry key q) ≡ get_entry j q
get-delete_ne j key [] differ = refl
get-delete_ne j key (e ∷ q) differ = elim (Bool-cases (key_eq key e.0)) [
  | inl same ↦ rw (same, ← key_eq→≡ key e.0 same, differ) refl
  | inr other ↦ rw (other, get-delete_ne j key q differ) refl
]

get-replace_ne :
    (j key : UnbondKey) (u : LpUnbonding) (q : Queue)
    → key_eq j key ≡ false
    → get_entry j (replace_entry key u q) ≡ get_entry j q
get-replace_ne j key u [] differ = refl
get-replace_ne j key u (e ∷ q) differ = elim (Bool-cases (key_eq key e.0)) [
  | inl same ↦ rw (same, ← key_eq→≡ key e.0 same, differ) refl
  | inr other ↦ rw (other, get-replace_ne j key u q differ) refl
]

get-insert_ne :
    (j key : UnbondKey) (u : LpUnbonding) (q : Queue)
    → key_eq j key ≡ false
    → get_entry j (insert_entry key u q) ≡ get_entry j q
get-insert_ne j key u [] differ = rw differ refl
get-insert_ne j key u (e ∷ q) differ = elim (Bool-cases (key_lt key e.0)) [
  | inl before ↦ rw (before, differ) refl
  | inr after ↦ rw (after, get-insert_ne j key u q differ) refl
]

pub get-put_ne :
    (j key : UnbondKey) (u : LpUnbonding) (q : Queue)
    → key_eq j key ≡ false
    → get_entry j (put_entry key u q) ≡ get_entry j q
get-put_ne j key u q differ = elim (Bool-cases (has_entry key q)) [
  | inl there ↦ rw there (get-replace_ne j key u q differ)
  | inr free ↦ rw free (get-insert_ne j key u q differ)
]

pub delete-absent :
    (j key : UnbondKey) (q : Queue) → get_entry j q ≡ none → get_entry j (delete_entry key q) ≡ none
delete-absent j key [] none_there = refl
delete-absent j key (e ∷ q) none_there = elim (Bool-cases (key_eq j e.0)) [
  | inl same ↦ let bad = rw same at none_there in cc
  | inr other ↦ elim (Bool-cases (key_eq key e.0)) [
    | inl gone ↦ rw gone (rw other at none_there)
    | inr left ↦ rw (left, other) (delete-absent j key q (rw other at none_there))
  ]
]

pub delete-IsUnique : (key : UnbondKey) (q : Queue) → IsUnique q → IsUnique (delete_entry key q)
delete-IsUnique key [] h = tt
delete-IsUnique key (e ∷ q) h = elim (Bool-cases (key_eq key e.0)) [
  | inl gone ↦ rw gone h.1
  | inr left ↦ rw left (delete-absent e.0 key q h.0, delete-IsUnique key q h.1)
]

pub get-delete_self :
    (key : UnbondKey) (q : Queue) → IsUnique q → get_entry key (delete_entry key q) ≡ none
get-delete_self key [] h = refl
get-delete_self key (e ∷ q) h = elim (Bool-cases (key_eq key e.0)) [
  | inl gone ↦ rw gone (subst (λ x. get_entry x q ≡ none) (sym (key_eq→≡ key e.0 gone)) h.0)
  | inr left ↦ rw (left, left) (get-delete_self key q h.1)
]

replace-IsUnique :
    (key : UnbondKey) (u : LpUnbonding) (q : Queue) → IsUnique q → IsUnique (replace_entry key u q)
replace-IsUnique key u [] h = tt
replace-IsUnique key u (e ∷ q) h = elim (Bool-cases (key_eq key e.0)) [
  | inl same ↦ rw same (subst (λ x. get_entry x q ≡ none) (sym (key_eq→≡ key e.0 same)) h.0, h.1)
  | inr other ↦
      rw other
        (get-replace_ne e.0 key u q (key_eq_comm key e.0 other) ∙ h.0, replace-IsUnique key u q h.1)
]

insert-IsUnique :
    (key : UnbondKey) (u : LpUnbonding) (q : Queue)
    → get_entry key q ≡ none
    → IsUnique q
    → IsUnique (insert_entry key u q)
insert-IsUnique key u [] free h = (refl, tt)
insert-IsUnique key u (e ∷ q) free h = elim (Bool-cases (key_eq key e.0)) [
  | inl same ↦ let bad = rw same at free in cc
  | inr other ↦ elim (Bool-cases (key_lt key e.0)) [
    | inl before ↦ rw before (free, h)
    | inr after ↦ rw after (
      get-insert_ne e.0 key u q (key_eq_comm key e.0 other) ∙ h.0,
      insert-IsUnique key u q (rw other at free) h.1,
    )
  ]
]

pub has_entry-none :
    (key : UnbondKey) (q : Queue) → has_entry key q ≡ false → get_entry key q ≡ none
has_entry-none key q free = elim (Option-cases (get_entry key q)) [
  | inl absent ↦ absent
  | inr (u, there) ↦ let bad = rw (there, has_entry) at free in cc
]

pub put-IsUnique :
    (key : UnbondKey) (u : LpUnbonding) (q : Queue) → IsUnique q → IsUnique (put_entry key u q)
put-IsUnique key u q h = elim (Bool-cases (has_entry key q)) [
  | inl there ↦ rw there (replace-IsUnique key u q h)
  | inr free ↦ rw free (insert-IsUnique key u q (has_entry-none key q free) h)
]

-- The shares of one denom that wait in the queue.
abbrev pub shares_in : String → LpUnbonding → ℕ
shares_in d u = part d u.share_denom u.shares

abbrev pub queued : String → Queue → ℕ
queued d [] = 0
queued d (e ∷ q) = shares_in d e.1 + queued d q

abbrev pub queued_at : String → UnbondKey → Queue → ℕ
queued_at d key q = elim (get_entry key q) [ none ↦ 0 | some u ↦ shares_in d u ]

pub queued-delete :
    (d : String) (key : UnbondKey) (q : Queue)
    → queued d (delete_entry key q) + queued_at d key q ≡ queued d q
queued-delete d key [] = refl
queued-delete d key (e ∷ q) = elim (Bool-cases (key_eq key e.0)) [
  | inl gone ↦ rw (gone, queued_at) (omega arith)
  | inr left ↦ rw (left, queued_at) (omega (arith, queued-delete d key q))
]

queued-replace :
    (d : String) (key : UnbondKey) (u : LpUnbonding) (q : Queue)
    → has_entry key q ≡ true
    → queued d (replace_entry key u q) + queued_at d key q ≡ queued d q + shares_in d u
queued-replace d key u [] there = cc
queued-replace d key u (e ∷ q) there = elim (Bool-cases (key_eq key e.0)) [
  | inl same ↦ rw (same, queued_at) (omega arith)
  | inr other ↦
      rw (other, queued_at)
        (omega (arith, queued-replace d key u q (rw (other, has_entry) at there)))
]

queued-insert :
    (d : String) (key : UnbondKey) (u : LpUnbonding) (q : Queue)
    → queued d (insert_entry key u q) ≡ queued d q + shares_in d u
queued-insert d key u [] = omega arith
queued-insert d key u (e ∷ q) = elim (Bool-cases (key_lt key e.0)) [
  | inl before ↦ rw before (omega arith)
  | inr after ↦ rw after (omega (arith, queued-insert d key u q))
]

pub queued-put :
    (d : String) (key : UnbondKey) (u : LpUnbonding) (q : Queue)
    → queued d (put_entry key u q) + queued_at d key q ≡ queued d q + shares_in d u
queued-put d key u q = elim (Bool-cases (has_entry key q)) [
  | inl there ↦ rw there (queued-replace d key u q there)
  | inr free ↦
      let absent : queued_at d key q ≡ 0 = rw (has_entry-none key q free, queued_at) refl in
      rw free (omega (arith, queued-insert d key u q, absent))
]

get-replace_self :
    (key : UnbondKey) (u : LpUnbonding) (q : Queue)
    → has_entry key q ≡ true
    → get_entry key (replace_entry key u q) ≡ some u
get-replace_self key u [] there = cc
get-replace_self key u (e ∷ q) there = elim (Bool-cases (key_eq key e.0)) [
  | inl same ↦ rw (same, key_eq_self key) refl
  | inr other ↦ rw (other, other) (get-replace_self key u q (rw (other, has_entry) at there))
]

get-insert_self :
    (key : UnbondKey) (u : LpUnbonding) (q : Queue)
    → get_entry key q ≡ none
    → get_entry key (insert_entry key u q) ≡ some u
get-insert_self key u [] free = rw (key_eq_self key) refl
get-insert_self key u (e ∷ q) free = elim (Bool-cases (key_lt key e.0)) [
  | inl before ↦ rw (before, key_eq_self key) refl
  | inr after ↦ elim (Bool-cases (key_eq key e.0)) [
    | inl same ↦ let bad = rw same at free in cc
    | inr other ↦ rw (after, other) (get-insert_self key u q (rw other at free))
  ]
]

pub get-put_self :
    (key : UnbondKey) (u : LpUnbonding) (q : Queue) → get_entry key (put_entry key u q) ≡ some u
get-put_self key u q = elim (Bool-cases (has_entry key q)) [
  | inl there ↦ rw there (get-replace_self key u q there)
  | inr free ↦ rw free (get-insert_self key u q (has_entry-none key q free))
]

-- ===== src/Base/Maps.antt =====
-- A keyed collection of the store (`collections.Map`) as an association list, with sums over it.
use earth_network_chain.Base.Tests.{◌==◌, if◌then◌else◌, Bool-cases, ==_iff}
use Prim.Native.Nat.{ℕ, ◌+◌, ◌*◌}
use mathlib.Core.Path.{◌≡◌, refl, sym, subst₂}
use mathlib.Core.Logic.{◌≢◌, inl, inr}
use mathlib.Core.Bool.{Bool, true, false}
use mathlib.Core.Option.{Option, none, some}
use mathlib.Core.List.{List, [], ◌∷◌}
use native.Mathlib.Omega.{arith}

abbrev pub Map : Type 0 → Type 0
Map V = List (ℕ × V)

module _ {V : Type 0} where
  -- `Get`: `none` is ErrNotFound.
  abbrev pub get : ℕ → Map V → Option V
  get k [] = none
  get k ((j, v) ∷ m) = if k == j then some v else get k m

  -- `Set`.
  abbrev pub set : ℕ → V → Map V → Map V
  set k v [] = (k, v) ∷ []
  set k v (e ∷ m) = if k == e.0 then (k, v) ∷ m else e ∷ set k v m

  -- `Remove`: a missing key is no error.
  abbrev pub remove : ℕ → Map V → Map V
  remove k [] = []
  remove k (e ∷ m) = if k == e.0 then m else e ∷ remove k m

  -- `Has`.
  abbrev pub has : ℕ → Map V → Bool
  has k m = elim (get k m) [ none ↦ false | some _ ↦ true ]

  -- A `Get` that reads a missing key as a default.
  abbrev pub get_or : ℕ → V → Map V → V
  get_or k d m = elim (get k m) [ none ↦ d | some v ↦ v ]

  pub get-set_self : (k : ℕ) (v : V) (m : Map V) → get k (set k v m) ≡ some v
  get-set_self k v [] = ground arith
  get-set_self k v (e ∷ m) = ground (arith, get-set_self k v m)

  pub get-set_ne : (j k : ℕ) (v : V) (m : Map V) → j ≢ k → get j (set k v m) ≡ get j m
  get-set_ne j k v [] h = ground arith
  get-set_ne j k v (e ∷ m) h = ground (arith, get-set_ne j k v m h)

  pub get-set :
      (j k : ℕ) (v : V) (m : Map V) → get j (set k v m) ≡ (if j == k then some v else get j m)
  get-set j k v m = ground (arith, get-set_ne j k v m, get-set_self j v m)

  pub get_or-set :
      (j k : ℕ) (v d : V) (m : Map V)
      → get_or j d (set k v m) ≡ (if j == k then v else get_or j d m)
  get_or-set j k v d m = ground (arith, get-set j k v m)

  pub get_or-set_self : (k : ℕ) (v d : V) (m : Map V) → get_or k d (set k v m) ≡ v
  get_or-set_self k v d m = ground (arith, get-set_self k v m)

  pub get_or-set_ne :
      (j k : ℕ) (v d : V) (m : Map V) → j ≢ k → get_or j d (set k v m) ≡ get_or j d m
  get_or-set_ne j k v d m h = ground (arith, get-set_ne j k v m h)

  pub get-remove_ne : (j k : ℕ) (m : Map V) → j ≢ k → get j (remove k m) ≡ get j m
  get-remove_ne j k [] h = refl
  get-remove_ne j k (e ∷ m) h = ground (arith, get-remove_ne j k m h)

  -- The sum of a measure of the entries. The measure reads the key too.
  abbrev pub sum_by : (ℕ → V → ℕ) → Map V → ℕ
  sum_by f [] = 0
  sum_by f ((k, v) ∷ m) = f k v + sum_by f m

  -- What the entry at a key adds to the sum.
  abbrev pub at : (ℕ → V → ℕ) → ℕ → Map V → ℕ
  at f k m = elim (get k m) [ none ↦ 0 | some v ↦ f k v ]

  -- Each key once.
  abbrev pub IsDistinct : Map V → Type 0
  IsDistinct [] = Unit {0}
  IsDistinct ((k, v) ∷ m) = (get k m ≡ none) × IsDistinct m

  -- Writing an entry replaces its part of the sum.
  pub sum_by-set :
      (f : ℕ → V → ℕ) (k : ℕ) (v : V) (m : Map V)
      → sum_by f (set k v m) + at f k m ≡ sum_by f m + f k v
  sum_by-set f k v [] = omega arith
  sum_by-set f k v ((j, w) ∷ m) = ground (arith, sum_by-set f k v m)

  -- Removing an entry takes its part out of the sum.
  pub sum_by-remove :
      (f : ℕ → V → ℕ) (k : ℕ) (m : Map V) → sum_by f (remove k m) + at f k m ≡ sum_by f m
  sum_by-remove f k [] = omega arith
  sum_by-remove f k ((j, w) ∷ m) = ground (arith, sum_by-remove f k m)

  pub set-IsDistinct : (k : ℕ) (v : V) (m : Map V) → IsDistinct m → IsDistinct (set k v m)
  set-IsDistinct k v [] h = (refl, tt)
  set-IsDistinct k v ((j, w) ∷ m) h = ground (arith, set-IsDistinct k v m h.1, get-set_ne j k v m)

  pub remove-IsDistinct : (k : ℕ) (m : Map V) → IsDistinct m → IsDistinct (remove k m)
  remove-IsDistinct k [] h = tt
  remove-IsDistinct k ((j, w) ∷ m) h =
      ground (arith, remove-IsDistinct k m h.1, get-remove_ne j k m)

  pub get-remove_self : (k : ℕ) (m : Map V) → IsDistinct m → get k (remove k m) ≡ none
  get-remove_self k [] h = refl
  get-remove_self k ((j, w) ∷ m) h = ground (arith, get-remove_self k m h.1)

module _ {V : Type 0} where
  -- Every entry satisfies a predicate.
  abbrev pub Every : (ℕ → V → Type 0) → Map V → Type 0
  Every P [] = Unit {0}
  Every P ((k, v) ∷ m) = P k v × Every P m

  pub set-Every :
      (P : ℕ → V → Type 0) (k : ℕ) (v : V) (m : Map V) → P k v → Every P m → Every P (set k v m)
  set-Every P k v [] p h = (p, tt)
  set-Every P k v ((j, w) ∷ m) p h = elim (Bool-cases (k == j)) [
    | inl same ↦ rw same (p, h.1)
    | inr other ↦ rw other (h.0, set-Every P k v m p h.1)
  ]

  pub remove-Every : (P : ℕ → V → Type 0) (k : ℕ) (m : Map V) → Every P m → Every P (remove k m)
  remove-Every P k [] h = tt
  remove-Every P k ((j, w) ∷ m) h = elim (Bool-cases (k == j)) [
    | inl same ↦ rw same h.1
    | inr other ↦ rw other (h.0, remove-Every P k m h.1)
  ]

  pub get-Every :
      (P : ℕ → V → Type 0) (k : ℕ) (v : V) (m : Map V) → Every P m → get k m ≡ some v → P k v
  get-Every P k v [] h e = absurd (none_ne e)
    where
      none_ne : none ≡ some v → ⊥
      none_ne p = cc
  get-Every P k v ((j, w) ∷ m) h e = elim (Bool-cases (k == j)) [
    | inl same ↦
        let ev : w ≡ v = ground arith in
        let ek : k ≡ j = (==_iff k j).0 same in subst₂ P (sym ek) ev h.0
    | inr other ↦ get-Every P k v m h.1 (rw other at e)
  ]

  pub Every-map :
      (P Q : ℕ → V → Type 0) (m : Map V) → ((k : ℕ) (v : V) → P k v → Q k v) → Every P m → Every Q m
  Every-map P Q [] f h = tt
  Every-map P Q ((k, v) ∷ m) f h = (f k v h.0, Every-map P Q m f h.1)

  pub absent-ne : (k : ℕ) (m : Map V) → get k m ≡ none → Every (λ j v. j ≢ k) m
  absent-ne k [] e = tt
  absent-ne k ((j, w) ∷ m) e = elim (Bool-cases (k == j)) [
    | inl same ↦ absurd (ground arith)
    | inr other ↦ ((λ p. ground arith), absent-ne k m (rw other at e))
  ]

  -- No entry has the key that was removed.
  pub remove-ne : (k : ℕ) (m : Map V) → IsDistinct m → Every (λ j v. j ≢ k) (remove k m)
  remove-ne k [] d = tt
  remove-ne k ((j, w) ∷ m) d = elim (Bool-cases (k == j)) [
    | inl same ↦ let ek : k ≡ j = (==_iff k j).0 same in rw same (absent-ne k m (rw ek d.0))
    | inr other ↦ rw other ((λ p. ground arith), remove-ne k m d.1)
  ]

  -- A measure that is another plus a multiple of a weight.
  pub sum_by-grow :
      (f g w : ℕ → V → ℕ) (δ : ℕ) (m : Map V)
      → Every (λ k v. f k v ≡ g k v + δ * w k v) m
      → sum_by f m ≡ sum_by g m + δ * sum_by w m
  sum_by-grow f g w δ [] h = omega arith
  sum_by-grow f g w δ ((k, v) ∷ m) h = omega (arith, sum_by-grow f g w δ m h.1, h.0)

  pub sum_by-congr :
      (f g : ℕ → V → ℕ) (m : Map V) → Every (λ k v. f k v ≡ g k v) m → sum_by f m ≡ sum_by g m
  sum_by-congr f g [] h = refl
  sum_by-congr f g ((k, v) ∷ m) h = omega (arith, sum_by-congr f g m h.1, h.0)

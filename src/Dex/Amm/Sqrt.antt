-- ===== src/Dex/Amm/Sqrt.antt =====
-- `initialShares` of x/dex/keeper/amm.go against the integer square root.
use native.Mathlib.Nat.{pow-suc, mul-le-mul}
use earth_network_chain.Base.{
  ℕ, zero, suc, ◌+◌, ◌*◌, ◌/◌, ◌^◌, ◌<◌, ◌≤◌, ◌≡◌, inl, inr, Bool-cases, leb, arith, leb→le,
  if◌then◌else◌, refl, ◌-◌,
}
use earth_network_chain.Dex.Amm.{sqrt_digits, sqrt, initial_shares}

-- One more digit of the root.
next_digit :
    (r n : ℕ) (q : ℕ)
    → r * r ≤ n / 4
    → n / 4 < (r + 1) * (r + 1)
    → q ≡ (if leb ((2 * r + 1) * (2 * r + 1)) n then 2 * r + 1 else 2 * r)
    → (q * q ≤ n) × (n < (q + 1) * (q + 1))
next_digit r n q low high e = elim (Bool-cases (leb ((2 * r + 1) * (2 * r + 1)) n)) [
  | inl fits ↦ let e' : q ≡ 2 * r + 1 = rw fits at e in rw e' (leb→le _ _ fits, omega arith)
  | inr over ↦
      let e' : q ≡ 2 * r = rw over at e in
      let gap : n < (2 * r + 1) * (2 * r + 1) = ground arith in rw e' (omega arith, omega arith)
]

sqrt_digits_lem :
    (f n : ℕ)
    → n < 4 ^ f
    → (sqrt_digits f n * sqrt_digits f n ≤ n) × (n < (sqrt_digits f n + 1) * (sqrt_digits f n + 1))
unfolding sqrt_digits
sqrt_digits_lem zero n h = omega arith
sqrt_digits_lem (suc f) n h =
    let ih = sqrt_digits_lem f (n / 4) (omega (arith, pow-suc 4 f)) in
    next_digit (sqrt_digits f (n / 4)) n (sqrt_digits (suc f) n) ih.0 ih.1 refl

-- The share count of a pool's first deposit is the integer square root of the product of the two
-- amounts, wherever both are below 2^256, the bound of an `Int`.
pub initial_shares_lem :
    (e t : ℕ)
    → e < 2 ^ 256
    → t < 2 ^ 256
    → let r = initial_shares e t in (r * r ≤ e * t) × (e * t < (r + 1) * (r + 1))
unfolding initial_shares sqrt
initial_shares_lem e t he ht =
    let product : e * t ≤ (2 ^ 256 - 1) * (2 ^ 256 - 1) =
      mul-le-mul {n₂ = 2 ^ 256 - 1} {m₂ = 2 ^ 256 - 1} (omega arith) (omega arith) in
    sqrt_digits_lem 256 (e * t) (omega arith)

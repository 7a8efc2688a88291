-- ===== src/Dex/Deposit/Price.antt =====
-- `mulDiv` and `mulDivUp` of x/dex/keeper/amm.go against the quotient that they round.
use native.Mathlib.Nat.{div-add-mod', mod-lt}
use earth_network_chain.Base.{
  ℕ, ◌+◌, ◌*◌, ◌/◌, ◌%◌, ◌≤◌, ◌<◌, ◌≡◌, sym, leb, ◌==◌, ok, inl, inr, Bool-cases, ==_iff, arith,
}
use earth_network_chain.Dex.Amm.{mul_div, mul_div_up, mul_div_round, max_int}

-- A floor: the largest number whose multiple by the divisor is within the product.
pub mul_div-ok :
    (a b c q : ℕ) → mul_div a b c ≡ ok q → (0 < c) × (q * c ≤ a * b) × (a * b < (q + 1) * c)
unfolding mul_div mul_div_round
mul_div-ok a b c q e = elim (Bool-cases (c == 0)) [
  | inl zero_divisor ↦ let e' = rw zero_divisor at e in cc
  | inr divides ↦
      let e1 = rw divides at e in
      let pc : 0 < c = ground arith in
      let d = div-add-mod' (a * b) c in
      let r = mod-lt (a * b) pc in
      elim (Bool-cases (leb max_int (a * b / c))) [
        | inl large ↦ let e2 = rw large at e1 in cc
        | inr fits ↦
            let e2 = rw fits at e1 in
            let eq : a * b / c ≡ q = cc in rw (sym eq) (pc, omega arith, omega arith)
      ]
]

-- A ceiling: the least number whose multiple by the divisor covers the product.
pub mul_div_up-ok :
    (a b c q : ℕ) → mul_div_up a b c ≡ ok q → (0 < c) × (a * b ≤ q * c) × (q * c < a * b + c)
unfolding mul_div_up mul_div_round
mul_div_up-ok a b c q e = elim (Bool-cases (c == 0)) [
  | inl zero_divisor ↦ let e' = rw zero_divisor at e in cc
  | inr divides ↦
      let e1 = rw divides at e in
      let pc : 0 < c = ground arith in
      let d = div-add-mod' (a * b) c in
      let r = mod-lt (a * b) pc in
      elim (Bool-cases (a * b % c == 0)) [
        | inl whole ↦
            let e2 = rw whole at e1 in
            let n : a * b % c ≡ 0 = (==_iff (a * b % c) 0).0 whole in
            elim (Bool-cases (leb max_int (a * b / c))) [
              | inl large ↦ let e3 = rw large at e2 in cc
              | inr fits ↦
                  let e3 = rw fits at e2 in
                  let eq : a * b / c ≡ q = cc in rw (sym eq) (pc, omega arith, omega arith)
            ]
        | inr rest ↦
            let e2 = rw rest at e1 in
            let n : 0 < a * b % c = ground arith in
            elim (Bool-cases (leb max_int (a * b / c + 1))) [
              | inl large ↦ let e3 = rw large at e2 in cc
              | inr fits ↦
                  let e3 = rw fits at e2 in
                  let eq : a * b / c + 1 ≡ q = cc in rw (sym eq) (pc, omega arith, omega arith)
            ]
      ]
]

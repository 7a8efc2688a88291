-- ===== src/Dex/Deposit/Fair.antt =====
-- `deposit` and `payoutUnbonding`: what a deposit pays for its shares, and what the shares pay back.
use native.Mathlib.Nat.{le_of_mul-le-mul_right}
use earth_network_chain.Base.{
  ℕ, ◌+◌, ◌*◌, ◌≤◌, ◌<◌, ◌≡◌, subst, ◌||◌, ltb, ◌==◌, ok, arith, min, fail_if, >>=-eq-ok,
  fail_if-ok, zero_shares, insufficient_pool,
}
use earth_network_chain.Dex.Amm.{mul_div, mul_div_up}
use earth_network_chain.Dex.Deposit.{Priced, price_deposit, price_payout}
use earth_network_chain.Dex.Deposit.Price.{mul_div-ok, mul_div_up-ok}

-- What a priced deposit satisfies.
pub record IsFair (total reserve_erth reserve_token erth_in token_in : ℕ) (p : Priced)
    : Type 0 where
  pub minted : 0 < p.shares
  pub erth_within : p.erth ≤ erth_in
  pub token_within : p.token ≤ token_in
  pub erth_covers : p.shares * reserve_erth ≤ p.erth * total
  pub token_covers : p.shares * reserve_token ≤ p.token * total
  pub erth_least : p.erth * total < p.shares * reserve_erth + total
  pub token_least : p.token * total < p.shares * reserve_token + total

-- A deposit that is priced mints some shares, takes of each side no more than was offered, and
-- takes the least whole amounts that cover the shares at the pool's ratio: the holders who are there
-- already are not diluted, and the depositor overpays by less than one unit a side.
pub price_deposit-IsFair :
    (total reserve_erth reserve_token erth_in token_in : ℕ) (p : Priced)
    → price_deposit total reserve_erth reserve_token erth_in token_in ≡ ok p
    → IsFair total reserve_erth reserve_token erth_in token_in p
unfolding price_deposit
price_deposit-IsFair total re rt ein tin p q =
    let (u0, e0, q0) = >>=-eq-ok (fail_if (re == 0 || rt == 0) insufficient_pool) _ q in
    let (fe, ee, q1) = >>=-eq-ok (mul_div ein total re) _ q0 in
    let (ft, et, q2) = >>=-eq-ok (mul_div tin total rt) _ q1 in
    let (u1, e1, q3) = >>=-eq-ok (fail_if (min fe ft == 0) zero_shares) _ q2 in
    let (le, el, q4) = >>=-eq-ok (mul_div_up (min fe ft) re total) _ q3 in
    let (lt, el', q5) = >>=-eq-ok (mul_div_up (min fe ft) rt total) _ q4 in
    let (u2, e2, q6) =
      >>=-eq-ok (fail_if (le == 0 || lt == 0 || ltb ein le || ltb tin lt) zero_shares) _ q5 in
    let some_shares = fail_if-ok (min fe ft == 0) zero_shares e1 in
    let within = fail_if-ok (le == 0 || lt == 0 || ltb ein le || ltb tin lt) zero_shares e2 in
    let a = mul_div_up-ok _ _ _ _ el in
    let b = mul_div_up-ok _ _ _ _ el' in
    let eq : record { shares = min fe ft; erth = le; token = lt } ≡ p = cc in
    subst (λ r. IsFair total re rt ein tin r) eq
      (record {
        minted = ground arith;
        erth_within = ground arith;
        token_within = ground arith;
        erth_covers = a.1;
        token_covers = b.1;
        erth_least = a.2;
        token_least = b.2;
      })

-- One leg of a withdrawal that follows at once.
payout-leg :
    (shares total reserve leg out : ℕ)
    → shares * reserve ≤ leg * total
    → mul_div shares (reserve + leg) (total + shares) ≡ ok out
    → out ≤ leg
payout-leg shares total reserve leg out h q =
    let f = mul_div-ok shares (reserve + leg) (total + shares) out q in
    let m : out * (total + shares) ≤ leg * (total + shares) = omega arith in
    le_of_mul-le-mul_right m f.0

-- A deposit that is priced, then priced out again with nothing in between, gives back on each side
-- no more than it took.
pub price_payout-price_deposit :
    (total reserve_erth reserve_token erth_in token_in : ℕ) (p : Priced) (r : ℕ × ℕ)
    → price_deposit total reserve_erth reserve_token erth_in token_in ≡ ok p
    → price_payout p.shares (total + p.shares) (reserve_erth + p.erth) (reserve_token + p.token)
      ≡ ok r
    → (r.0 ≤ p.erth) × (r.1 ≤ p.token)
unfolding price_payout
price_payout-price_deposit total re rt ein tin p r q o =
    let fair = price_deposit-IsFair total re rt ein tin p q in
    let (u, e, o0) =
      >>=-eq-ok
        (fail_if (total + p.shares == 0 || ltb (total + p.shares) p.shares) insufficient_pool) _
        o in
    let (x, ex, o1) = >>=-eq-ok (mul_div p.shares (re + p.erth) (total + p.shares)) _ o0 in
    let (y, ey, o2) = >>=-eq-ok (mul_div p.shares (rt + p.token) (total + p.shares)) _ o1 in
    let eq : (x, y) ≡ r = cc in
    subst (λ j. (j.0 ≤ p.erth) × (j.1 ≤ p.token)) eq
      (payout-leg _ _ _ _ _ fair.erth_covers ex, payout-leg _ _ _ _ _ fair.token_covers ey)

-- ===== src/Dex/Unbonding/Sweep/Plain.antt =====
-- Which errors of `payoutUnbonding` of x/dex/keeper/lp_unbonding.go stand for a spent note budget.
use Prim.Native.String.{String}
use text.Mathlib.Text.{◌==◌ as str_eq}
use earth_network_chain.Base.{
  ℕ, ◌+◌, ◌≡◌, refl, inl, inr, Bool, true, false, not, ◌&&◌, ◌||◌, ltb, ◌==◌, Option, none, some,
  List, [], ◌∷◌, Result, ok, err, Error, guard, fail_if, or_err, ◌>>=◌, pool_not_found,
  bank_refused, Bool-cases, note_budget, invalid_amount, invalid_unbonding, pool_cap,
  lp_share_denom, if◌then◌else◌,
}
use earth_network_chain.Base.Maps.{get}
use earth_network_chain.Dex.Dec.{DecMath}
use earth_network_chain.Dex.Amm.{mul_div, mul_div_round}
use earth_network_chain.Dex.Store.{Pool, Dex, set_pool, with_pool, over_cap, is_lp_share_denom}
use earth_network_chain.Dex.Bank.{Bank}
use earth_network_chain.Dex.Deposit.{price_payout}
use earth_network_chain.Dex.Notes.{
  Notes, max_split_notes, notes_of, split_rest, split_note_values, mint_each, mint_note_split,
}
use earth_network_chain.Dex.Unbonding.{LpUnbonding, Codec, lp_share_denom_of, lp_unbond_note_budget}
use earth_network_chain.Dex.Unbonding.Payout.{
  recipient, is_private, is_empty, leg_notes, notes_needed, mint_leg, send_leg, pay_private,
  pay_shielded, pay_account, pay_legs, payout_unbonding,
}
use earth_network_chain.Dex.Unbonding.Sweep.{is_note_budget}

-- A result that is no spent budget.
pub Plain {ℓ} : {V : Type ℓ} → Result V → Type 0
Plain (ok v) = Unit {0}
Plain (err e) = is_note_budget e ≡ false

err_injective {ℓ} : (V : Type ℓ) (e f : Error) → ◌≡◌ {A = Result V} (err e) (err f) → e ≡ f
err_injective V e f p = cc

pub Plain-err {ℓ} :
    {V : Type ℓ} (r : Result V) (e : Error) → Plain r → r ≡ err e → is_note_budget e ≡ false
unfolding Plain
Plain-err {V = V} (err f) e h q = let same : f ≡ e = err_injective V f e q in rw (← same) h
Plain-err (ok v) e h q = cc

Plain-ok {ℓ} : {V : Type ℓ} (v : V) → Plain (ok v)
unfolding Plain
Plain-ok v = tt

Plain-other {ℓ} : (V : Type ℓ) (e : Error) → is_note_budget e ≡ false → Plain {V = V} (err e)
unfolding Plain
Plain-other V e h = h

Plain-bind {ℓ κ} :
    {V : Type ℓ} {W : Type κ} (r : Result V) (f : V → Result W)
    → Plain r
    → ((v : V) → Plain (f v))
    → Plain (r >>= f)
unfolding Plain
Plain-bind (ok v) f h next = next v
Plain-bind (err e) f h next = h

Plain-or_err {ℓ} :
    {V : Type ℓ} (o : Option V) (e : Error) → is_note_budget e ≡ false → Plain (or_err o e)
unfolding Plain
Plain-or_err none e h = h
Plain-or_err (some v) e h = tt

Plain-fail_if : (b : Bool) (e : Error) → is_note_budget e ≡ false → Plain (fail_if b e)
unfolding Plain
Plain-fail_if true e h = h
Plain-fail_if false e h = tt

Plain-if {ℓ} :
    {V : Type ℓ} (b : Bool) (r s : Result V) → Plain r → Plain s → Plain (if b then r else s)
Plain-if true r s h g = h
Plain-if false r s h g = g

mul_div-Plain : (a b c : ℕ) → Plain (mul_div a b c)
unfolding mul_div mul_div_round
mul_div-Plain a b c =
    Plain-if (c == 0) _ _ (Plain-other _ _ refl)
      (Plain-if _ _ _ (Plain-other _ _ refl) (Plain-ok _))

price_payout-Plain : (shares total re rt : ℕ) → Plain (price_payout shares total re rt)
unfolding price_payout
price_payout-Plain shares total re rt = Plain-bind _ _ (Plain-fail_if _ _ refl) λ _.
    Plain-bind _ _ (mul_div-Plain shares re total)
      λ _. Plain-bind _ _ (mul_div-Plain shares rt total) λ _. Plain-ok _

split-Plain : (v : ℕ) → Plain (split_note_values v)
unfolding split_note_values
split-Plain v = Plain-bind (fail_if (v == 0) invalid_amount) _ (Plain-fail_if _ _ refl) λ _.
    Plain-bind (fail_if (ltb max_split_notes (notes_of v)) invalid_amount) _
      (Plain-fail_if _ _ refl) λ _. Plain-ok (split_rest (notes_of v) v)

leg_notes-Plain : (amount : ℕ) → Plain (leg_notes amount)
unfolding leg_notes
leg_notes-Plain amount =
    Plain-if _ _ _ (Plain-ok _) (Plain-bind _ _ (split-Plain amount) λ _. Plain-ok _)

set_pool-Plain : (id : ℕ) (pool : Pool) (s : Dex) → Plain (set_pool id pool s)
unfolding set_pool
set_pool-Plain id pool s =
    Plain-if (over_cap pool.reserve_erth || over_cap pool.reserve_token) (err pool_cap) _
      (Plain-other _ _ refl)
      (Plain-if (is_lp_share_denom pool.token_denom || is_lp_share_denom s.hub_denom)
        (err lp_share_denom) (ok (with_pool id pool s)) (Plain-other _ _ refl) (Plain-ok _))

recipient-Plain : (codec : Codec) (entry : LpUnbonding) → Plain (recipient codec entry)
unfolding recipient
recipient-Plain codec entry =
    Plain-if _ _ _ (Plain-bind _ _ (Plain-fail_if _ _ refl) λ _. Plain-ok _) (Plain-or_err _ _ refl)

within_budget :
    (need : ℕ)
    → Plain (
        fail_if
          (ltb lp_unbond_note_budget need && ltb lp_unbond_note_budget lp_unbond_note_budget)
          note_budget)
unfolding Plain
within_budget need = elim (Bool-cases (ltb lp_unbond_note_budget need)) [
  | inl much ↦ rw much tt
  | inr fits ↦ rw fits tt
]

module _ (k : Bank) (notes : Notes k) where
  notes_needed-Plain :
      (entry : LpUnbonding) (token : String) (legs : ℕ × ℕ)
      → Plain (notes_needed k notes entry token legs)
  unfolding notes_needed
  notes_needed-Plain entry token legs =
      Plain-if _ _ _
        (Plain-bind _ _ (leg_notes-Plain legs.0)
          λ _. Plain-bind _ _ (leg_notes-Plain legs.1) λ _. Plain-ok _)
        (Plain-if _ _ _ (leg_notes-Plain legs.1) (Plain-ok _))

  mint_each-Plain :
      (denom : String) (vs : List ℕ) (pc ct : String) (b : k.State)
      → Plain (mint_each k notes denom vs pc ct b)
  unfolding mint_each
  mint_each-Plain denom [] pc ct b = Plain-ok _
  mint_each-Plain denom (v ∷ vs) pc ct b =
      Plain-bind _ _ (Plain-or_err _ _ refl) λ b'. mint_each-Plain denom vs pc ct b'

  mint_leg-Plain :
      (denom : String) (amount : ℕ) (pc ct : String) (b : k.State)
      → Plain (mint_leg k notes denom amount pc ct b)
  unfolding mint_leg mint_note_split
  mint_leg-Plain denom amount pc ct b = Plain-if _ _ _ (Plain-ok _) (
      Plain-bind _ _ (split-Plain amount) λ vs.
        Plain-bind _ _ (Plain-fail_if _ _ refl)
          λ _. Plain-bind _ _ (mint_each-Plain denom vs pc ct b) λ _. Plain-ok _)

  send_leg-Plain :
      (to : ℕ) (denom : String) (amount : ℕ) (b : k.State)
      → Plain (send_leg k notes to denom amount b)
  unfolding send_leg
  send_leg-Plain to denom amount b = Plain-if _ _ _ (Plain-ok _) (Plain-or_err _ _ refl)

  module _ (to : ℕ) (entry : LpUnbonding) (hub token : String) (legs : ℕ × ℕ) (b : k.State) where
    pay_private-Plain : Plain (pay_private k notes entry hub token legs b)
    unfolding pay_private
    pay_private-Plain =
        Plain-bind _ _ (mint_leg-Plain hub legs.0 entry.erth_pc entry.erth_ciphertext b) λ r.
          Plain-bind _ _ (mint_leg-Plain token legs.1 entry.pc entry.ciphertext r.1)
            λ x. Plain-ok (r.0 + x.0, x.1)

    pay_shielded-Plain : Plain (pay_shielded k notes to entry hub token legs b)
    unfolding pay_shielded
    pay_shielded-Plain =
        Plain-bind (fail_if (not (legs.1 == 0) && is_empty entry.pc) invalid_unbonding) _
          (Plain-fail_if _ _ refl)
          λ _.
            Plain-bind _ _ (mint_leg-Plain token legs.1 entry.pc entry.ciphertext b)
              λ r. Plain-bind _ _ (send_leg-Plain to hub legs.0 r.1) λ x. Plain-ok (r.0, x)

    pay_account-Plain : Plain (pay_account k notes to hub token legs b)
    unfolding pay_account
    pay_account-Plain =
        Plain-bind _ _ (send_leg-Plain to hub legs.0 b)
          λ b'. Plain-bind _ _ (send_leg-Plain to token legs.1 b') λ x. Plain-ok (0, x)

    pay_legs-Plain : Plain (pay_legs k notes to entry hub token legs b)
    unfolding pay_legs
    pay_legs-Plain =
        Plain-if (is_private entry) _ _ pay_private-Plain
          (Plain-if (k.is_shielded_only token) _ _ pay_shielded-Plain pay_account-Plain)

  -- With the whole budget left, no payout stops for it.
  pub payout_unbonding-Plain :
      (codec : Codec) (m : DecMath) (now : ℕ) (entry : LpUnbonding) (s : Dex) (b : k.State)
      → Plain (payout_unbonding k notes codec m now entry lp_unbond_note_budget s b)
  unfolding payout_unbonding
  payout_unbonding-Plain codec m now entry s b =
      let id = entry.pool_id in
      let denom = lp_share_denom_of codec id in
      Plain-bind _ _ (recipient-Plain codec entry) λ addr.
        Plain-bind (fail_if (entry.shares == 0) invalid_unbonding) _ (Plain-fail_if _ _ refl) λ _.
          Plain-bind (guard (str_eq entry.share_denom denom) invalid_unbonding) _
            (Plain-fail_if _ _ refl)
            λ _.
              Plain-bind (or_err (get id s.pools) pool_not_found) _ (Plain-or_err _ _ refl) λ pool.
                Plain-bind _ _ (price_payout-Plain _ _ _ _) λ (legs : ℕ × ℕ).
                  Plain-bind _ _ (notes_needed-Plain entry pool.token_denom legs) λ need.
                    Plain-bind _ _ (within_budget need) λ _.
                      Plain-bind
                        (or_err (k.burn_coins entry.share_denom entry.shares b) bank_refused) _
                        (Plain-or_err _ _ refl)
                        λ b1. Plain-bind _ _ (set_pool-Plain _ _ _) λ _.
                          Plain-bind _ _
                            (pay_legs-Plain (codec.acc_address addr) entry s.hub_denom
                              pool.token_denom legs b1)
                            λ _. Plain-ok _

-- ===== src/Dex/Unbonding/Start/Begun.antt =====
-- `RemoveLiquidity` of x/dex/keeper/msg_server_remove_liquidity.go against the escrow and the queue.
use Prim.Native.String.{String}
use text.Mathlib.Text.{◌==◌ as str_eq}
use text.Mathlib.TextEquality.{eq_iff}
use text.Mathlib.TextPositions.{starts_with-append}
use earth_network_chain.Base.{
  no_value, some_injective, ℕ, zero, suc, ◌+◌, ◌≤◌, ◌≡◌, refl, sym, ap, subst, ◌∙◌, arith, inl, inr,
  true, false, ◌&&◌, ◌==◌, Option, none, some, ok, guard, fail_if, or_err, guard-ok, or_err-ok,
  >>=-eq-ok, >>=-ok-eq, Bool-cases, Option-cases, pool_not_found, bank_refused, bad_address,
  invalid_private_msg, invalid_denom, invalid_amount,
}
use earth_network_chain.Base.Maps.{get}
use earth_network_chain.Dex.Store.{is_lp_share_denom}
use earth_network_chain.Dex.Bank.{Bank, IsBank, part}
use earth_network_chain.Dex.Notes.{Notes}
use earth_network_chain.Dex.Owed.{part-add, other_denom, part-other}
use earth_network_chain.Dex.Unbonding.{
  LpUnbonding, UnbondKey, Queue, Book, Codec, key_eq, get_entry, has_entry, put_entry,
  set_lp_unbonding, lp_share_denom_of,
}
use earth_network_chain.Dex.Unbonding.Entries.{
  shares_in, queued, queued_at, queued-put, put-IsUnique, get-put_self, get-put_ne,
}
use earth_network_chain.Dex.Unbonding.Sweep.{key_at, free_key}
use earth_network_chain.Dex.Unbonding.Sweep.Conserves.{IsOrderly, Conserves}
use earth_network_chain.Dex.Unbonding.Sweep.Retried.{free_key-some}
use earth_network_chain.Dex.Unbonding.Start.{
  MsgRemoveLiquidity, later_slots, withdrawal_slot, withdrawal_entry, check_pc, check_token_leg,
  remove_liquidity,
}

-- A slot: the entry there is the one to fold into, and one that has not failed.
abbrev IsSlot : UnbondKey → Queue → UnbondKey × Option LpUnbonding → Type 0
IsSlot key q (next, existing) =
    (get_entry next q ≡ existing)
    × (key.time ≤ next.time)
    × ((u : LpUnbonding) → existing ≡ some u → u.payout_attempts ≡ 0)
    × (next ≡ key_at next.time key)

-- A retry's key differs in its time alone.
free_key-key_at :
    (slots time : ℕ) (key next : UnbondKey) (q : Queue)
    → free_key slots time key q ≡ some next
    → next ≡ key_at next.time key
unfolding free_key
free_key-key_at zero time key next q e = absurd (no_key e)
  where
    no_key : none ≡ some next → ⊥
    no_key p = cc
free_key-key_at (suc slots) time key next q e = elim (Bool-cases (has_entry (key_at time key) q)) [
  | inl taken ↦ free_key-key_at slots (time + 1) key next q (rw taken at e)
  | inr free ↦ rw (← key_injective (rw free at e)) refl
]
  where
    key_injective : {x y : UnbondKey} → some x ≡ some y → x ≡ y
    key_injective p = cc

slot_injective : {x y : UnbondKey × Option LpUnbonding} → ok x ≡ ok y → x ≡ y
slot_injective p = cc

withdrawal_slot-IsSlot :
    (k : Bank) (key : UnbondKey) (q : Queue) (slot : UnbondKey × Option LpUnbonding)
    → withdrawal_slot key q ≡ ok slot
    → IsSlot key q slot
unfolding withdrawal_slot
withdrawal_slot-IsSlot k key q slot e = elim (Option-cases (get_entry key q)) [
  | inl absent ↦
      rw (← slot_injective (rw (absent, withdrawal_slot) at e))
        (absent, omega arith, (λ u p. absurd (no_value p)), refl)
  | inr (u, there) ↦ elim (Bool-cases (u.payout_attempts == 0)) [
    | inl fresh ↦
        let e' : ok (key, some u) ≡ ok slot = rw (there, withdrawal_slot, fresh) at e in
        rw (← slot_injective e') (
          there,
          omega arith,
          (λ v p. ground (arith, ap (λ x. x.payout_attempts) (some_injective p))),
          refl,
        )
    | inr failed ↦ elim (Option-cases (free_key later_slots (key.time + 1) key q)) [
      | inl full ↦ let e' = rw (there, withdrawal_slot, failed, full) at e in cc
      | inr (next, free) ↦
          let f = free_key-some k later_slots (key.time + 1) key next q free in
          let e' : ok (next, none) ≡ ok slot = rw (there, withdrawal_slot, failed, free) at e in
          rw (← slot_injective e') (
            f.0,
            omega (arith, f.1),
            (λ v p. absurd (no_value p)),
            free_key-key_at later_slots (key.time + 1) key next q free,
          )
    ]
  ]
]

-- The entry that is filed holds the message's shares on top of those folded into.
withdrawal_entry-adds :
    (codec : Codec) (msg : MsgRemoveLiquidity) (creator : String) (at : ℕ)
    (existing : Option LpUnbonding) (u : LpUnbonding)
    → withdrawal_entry codec msg creator at existing ≡ ok u
    → ((v : LpUnbonding) → existing ≡ some v → v.payout_attempts ≡ 0)
    → ((d : String)
        → shares_in d u
          ≡ elim existing [ none ↦ 0 | some v ↦ shares_in d v ] + part d msg.share_denom msg.shares)
      × (u.payout_attempts ≡ 0)
      × (u.shares ≡ elim existing [ none ↦ 0 | some v ↦ v.shares ] + msg.shares)
      × (u.share_denom ≡ msg.share_denom)
unfolding withdrawal_entry
withdrawal_entry-adds codec msg creator at none u e fresh =
    let (canon, _, er) = >>=-ok-eq (or_err (codec.bytes_to_string creator) bad_address) _ e in
    rw (← er) ((λ d. omega arith), refl, omega arith, refl)
withdrawal_entry-adds codec msg creator at (some v) u e fresh =
    let (_, _, e1) =
      >>=-eq-ok
        (guard (str_eq v.pc msg.pc && str_eq v.ciphertext msg.ciphertext) invalid_private_msg) _
        e in
    let (_, same, er) =
      >>=-ok-eq (guard (str_eq v.share_denom msg.share_denom) invalid_denom)
        (λ x. record v { shares = v.shares + msg.shares }) e1 in
    let denom =
      (eq_iff v.share_denom msg.share_denom).0
        (guard-ok (str_eq v.share_denom msg.share_denom) invalid_denom same) in
    rw (← er) (
      (λ d.
          sym (part-add d v.share_denom v.shares msg.shares)
          ∙ ap (λ x. part d v.share_denom v.shares + part d x msg.shares) denom),
      fresh v refl,
      refl,
      denom,
    )

module _ (k : Bank) (codec : Codec) (now : ℕ) (msg : MsgRemoveLiquidity) (st : Book k) where
  -- The key that a withdrawal is filed under.
  abbrev pub key_of : String → ℕ → UnbondKey
  key_of creator time = record { time = time; pool = msg.pool_id; owner = creator }

  -- The shares that wait under a key.
  abbrev pub held_at : UnbondKey → Queue → ℕ
  held_at key q = elim (get_entry key q) [ none ↦ 0 | some v ↦ v.shares ]

  -- What the start of a withdrawal does.
  pub record Begins (r : ℕ × Book k) : Type 0 where
    pub creator : String
    pub is_creator : codec.string_to_bytes msg.creator ≡ some creator
    pub filed : LpUnbonding
    pub stored : get_entry (key_of creator r.0) r.1.lp_unbondings ≡ some filed
    pub fresh : filed.payout_attempts ≡ 0
    pub adds : filed.shares ≡ held_at (key_of creator r.0) st.lp_unbondings + msg.shares
    pub denom : filed.share_denom ≡ msg.share_denom
    pub others :
        (j : UnbondKey)
        → key_eq j (key_of creator r.0) ≡ false
        → get_entry j r.1.lp_unbondings ≡ get_entry j st.lp_unbondings
    pub escrowed :
        (d : String)
        → k.balance r.1.bank d ≡ k.balance st.bank d + part d msg.share_denom msg.shares
    pub queue :
        (d : String)
        → queued d r.1.lp_unbondings ≡ queued d st.lp_unbondings + part d msg.share_denom msg.shares
    pub later : now + st.dex.params.lp_unbonding_seconds ≤ r.0
    pub unpaid : r.1.dex ≡ st.dex
    pub sound : IsOrderly k r.1
    pub conserves : Conserves k st r.1

  -- A withdrawal that starts, from an orderly state, takes exactly its shares into the dex account
  -- and queues exactly its shares, in one entry: it is filed under its creator, no sooner than the
  -- unbonding period from now, and holds its shares on top of what waited under that key, in an entry
  -- that has not failed a payout; every other entry stays as it is, each LP share has as many more in
  -- the account than in the queue as before, and nothing is paid out; for a bank that moves what it
  -- is told to.
  pub remove_liquidity-Begins :
      (notes : Notes k) (r : ℕ × Book k)
      → IsBank k
      → IsOrderly k st
      → remove_liquidity k notes codec now msg st ≡ ok r
      → Begins r
  unfolding remove_liquidity set_lp_unbonding
  remove_liquidity-Begins notes r bank h e =
      let (creator, e0, q1) =
        >>=-eq-ok (or_err (codec.string_to_bytes msg.creator) bad_address) _ e in
      let (pool, _, q2) = >>=-eq-ok (or_err (get msg.pool_id st.dex.pools) pool_not_found) _ q1 in
      let (_, _, q3) = >>=-eq-ok (check_pc k notes codec now pool msg st.bank) _ q2 in
      let (_, e3, q4) =
        >>=-eq-ok
          (guard (str_eq msg.share_denom (lp_share_denom_of codec msg.pool_id)) invalid_denom) _
          q3 in
      let (_, _, q5) = >>=-eq-ok (fail_if (msg.shares == 0) invalid_amount) _ q4 in
      let (b, e5, q6) =
        >>=-eq-ok
          (or_err (k.from_account (codec.acc_address creator) msg.share_denom msg.shares st.bank)
            bank_refused)
          _ q5 in
      let key = key_of creator (now + st.dex.params.lp_unbonding_seconds) in
      let (slot, e6, q7) = >>=-eq-ok (withdrawal_slot key st.lp_unbondings) _ q6 in
      let (u, e7, q8) = >>=-eq-ok (withdrawal_entry codec msg creator slot.0.time slot.1) _ q7 in
      let (_, _, er) =
        >>=-ok-eq (check_token_leg k notes codec now pool u.shares (k.share_supply b msg.pool_id))
          (λ x. (slot.0.time, set_lp_unbonding slot.0 u (record st { bank = b }))) q8 in
      let f = withdrawal_slot-IsSlot k key st.lp_unbondings slot e6 in
      let g = withdrawal_entry-adds codec msg creator slot.0.time slot.1 u e7 f.2 in
      let lp : is_lp_share_denom msg.share_denom ≡ true =
        rw
          ((eq_iff msg.share_denom (lp_share_denom_of codec msg.pool_id)).0 (
            guard-ok (str_eq msg.share_denom (lp_share_denom_of codec msg.pool_id)) invalid_denom
              e3))
          (starts_with-append "dexlp/" (codec.format_uint msg.pool_id)) in
      let moved = λ (d : String).
        bank.from_account_adds (codec.acc_address creator) msg.share_denom d msg.shares st.bank b
          (or_err-ok _ _ e5) in
      let filed_in : (d : String)
          → queued d (put_entry slot.0 u st.lp_unbondings)
            ≡ queued d st.lp_unbondings + part d msg.share_denom msg.shares =
        λ d.
          let at : queued_at d slot.0 st.lp_unbondings
              ≡ elim slot.1 [ none ↦ 0 | some v ↦ shares_in d v ] =
            rw (f.0, queued_at) refl in
          omega (arith, queued-put d slot.0 u st.lp_unbondings, g.0 d, at) in
      subst Begins er (record {
        creator = creator;
        is_creator = or_err-ok _ _ e0;
        filed = u;
        stored =
            subst (λ x. get_entry x (put_entry slot.0 u st.lp_unbondings) ≡ some u) f.3
              (get-put_self slot.0 u st.lp_unbondings);
        fresh = g.1;
        adds =
            g.2
            ∙ ap (λ n. n + msg.shares)
                (sym (
                  ap (λ x. held_at x st.lp_unbondings) (sym f.3)
                  ∙ ap (λ o. elim o [ none ↦ 0 | some v ↦ v.shares ]) f.0));
        denom = g.3;
        others = λ j ne.
            get-put_ne j slot.0 u st.lp_unbondings (subst (λ x. key_eq j x ≡ false) (sym f.3) ne);
        escrowed = moved;
        queue = filed_in;
        later = f.1;
        unpaid = refl;
        sound = record {
          backed = h.backed;
          unique = put-IsUnique slot.0 u st.lp_unbondings h.unique;
        };
        conserves = record {
          escrow = λ d _. omega (arith, moved d, filed_in d);
          assets = λ d asset.
              let none_of : part d msg.share_denom msg.shares ≡ 0 =
                part-other d msg.share_denom msg.shares
                  (other_denom msg.share_denom d lp asset).0 in
              omega (arith, moved d, none_of);
        };
      })

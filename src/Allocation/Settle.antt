-- ===== src/Allocation/Settle.antt =====
-- Settling and drawing from an option on the ledger of x/allocation.
use native.Mathlib.Nat.{div-mul-le_self, mul-le-mul_left}
use earth_network_chain.Base.{
  ℕ, ◌+◌, ◌-◌, ◌*◌, ◌/◌, ◌≤◌, ◌≡◌, refl, ◌==◌, if◌then◌else◌, arith, Bool-cases, Option-cases, inl,
  inr, mul-sub_self, subst,
}
use earth_network_chain.Base.Int.{pos_part}
use earth_network_chain.Base.Maps.{get, get-Every}
use earth_network_chain.Allocation.State.{
  Stream, AllocationOption, Store, stream_of, index_precision, ppm_denominator,
}
use earth_network_chain.Allocation.Coins.{Coins}
use earth_network_chain.Allocation.Options.{settle_option, draw_from_option}
use earth_network_chain.Allocation.Booked.{claim, IsKept, IsSolvent}
use earth_network_chain.Allocation.Writes.{set_option-over}

-- A settled option holds no more than it held and could collect, and can collect nothing yet.
pub settle_option-covered :
    (o : AllocationOption) (index id : ℕ)
    → IsKept index id o
    → IsKept index id (settle_option o index)
      × (index_precision * (settle_option o index).accumulated
          ≤ index_precision * o.accumulated + claim index id o)
      × (claim index id (settle_option o index) ≡ 0)
unfolding settle_option
settle_option-covered o index id h = (
  record { own = h.own; nonneg = h.nonneg; current = omega arith; idle = h.idle },
  covered,
  mul-sub_self (pos_part o.amount_allocated) index index refl,
)
  where
    covered :
        index_precision
          * (if pos_part o.amount_allocated == 0
              then o.accumulated
              else o.accumulated
                + pos_part o.amount_allocated * (index - o.last_reward_index) / index_precision)
        ≤ index_precision * o.accumulated + claim index id o
    covered = elim (Bool-cases (pos_part o.amount_allocated == 0)) [
      | inl idle ↦ rw idle (omega arith)
      | inr live ↦
          let q =
            div-mul-le_self (pos_part o.amount_allocated * (index - o.last_reward_index))
              index_precision in
          rw live (omega arith)
    ]

-- `DrawFromOption` of at most a million parts per million keeps the module solvent, with the amount
-- drawn, on top of what was free, free to be paid out.
pub draw_from_option-IsSolvent :
    (k : Coins) (now : ℕ) (st : Stream) (id ppm free : ℕ) (s : Store) (b : k.State)
    → ppm ≤ ppm_denominator
    → IsSolvent k free s b
    → let (drawn, s') = draw_from_option now st id ppm s in IsSolvent k (free + drawn) s' b
unfolding draw_from_option
draw_from_option-IsSolvent k now st id ppm free s b small h =
    elim (Option-cases (get id (stream_of st s).options)) [
      | inl absent ↦ rw (absent, draw_from_option) (subst (λ n. IsSolvent k n s b) (omega arith) h)
      | inr present ↦
          let o = present.0 in
          let x = stream_of st s in
          let kept =
            get-Every (IsKept x.reward_index) id o x.options (h.booked st).kept present.1 in
          let c = settle_option-covered o x.reward_index id kept in
          let q =
            div-mul-le_self ((settle_option o x.reward_index).accumulated * ppm) ppm_denominator in
          let most : (settle_option o x.reward_index).accumulated * ppm
              ≤ (settle_option o x.reward_index).accumulated * ppm_denominator =
            mul-le-mul_left _ small in
          rw (present.1, draw_from_option)
            (set_option-over k now st id o _ free _ s b h present.1
              (record {
                own = kept.own;
                nonneg = kept.nonneg;
                current = c.0.current;
                idle = kept.idle;
              })
              (omega (arith, c, q, most)))
    ]

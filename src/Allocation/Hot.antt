-- ===== src/Allocation/Hot.antt =====
-- `AssertHotInvariants` of x/allocation/keeper/invariants.go against the ledger.
use earth_network_chain.Base.{◌≤◌, ◌≡◌, refl, true, false, arith}
use earth_network_chain.Base.Int.{pos, pos_part, ltb_ℤ, ◌+ℤ◌, +ℤ_pos}
use earth_network_chain.Allocation.State.{Stream, caretaker, groundworks, Store, stream_of}
use earth_network_chain.Allocation.Coins.{Coins}
use earth_network_chain.Allocation.Solvency.{
  check_solvency, assert_hot_invariants, is_short, is_drifted, check_stream_weight_bounded,
}
use earth_network_chain.Allocation.Booked.{IsBooked, IsAgreed, IsSolvent}
use earth_network_chain.Allocation.Claims.{IsHealthy}

solvent-not_short :
    (k : Coins) (s : Store) (b : k.State)
    → IsSolvent k 0 s b
    → is_short (check_solvency k s b) ≡ false
unfolding check_solvency
solvent-not_short k s b h =
    let e = +ℤ_pos s.summed_accrued s.residue h.accrued_nonneg in
    let fits : pos_part (s.summed_accrued +ℤ pos s.residue) ≤ k.held b =
      omega (arith, h.covered, e) in
    let no : ltb_ℤ (pos (k.held b)) (s.summed_accrued +ℤ pos s.residue) ≡ false = ground arith in
    rw no refl

agreed-not_drifted :
    (st : Stream) (s : Store)
    → IsBooked (stream_of st s)
    → IsAgreed (stream_of st s)
    → is_drifted (check_stream_weight_bounded st s) ≡ false
agreed-not_drifted st s h a = ground arith

-- A module that is solvent, its totals in agreement, passes the EndBlocker's check.
pub assert_hot_invariants-IsHealthy :
    (k : Coins) (s : Store) (b : k.State) → IsHealthy k s b → assert_hot_invariants k s b ≡ true
unfolding assert_hot_invariants
assert_hot_invariants-IsHealthy k s b h =
    rw
      (
        solvent-not_short k s b h.solvent,
        agreed-not_drifted caretaker s (h.solvent.booked caretaker) (h.agreed caretaker),
        agreed-not_drifted groundworks s (h.solvent.booked groundworks) (h.agreed groundworks),
      )
      refl

-- ===== src/Allocation/Solvency.antt =====
-- The checks of x/allocation's EndBlocker: `CheckSolvency`, `CheckStreamWeightBounded` and
-- `AssertHotInvariants` of keeper/invariants.go.
use earth_network_chain.Base.{ℕ, Bool, not, ◌&&◌, ◌==◌, if◌then◌else◌}
use earth_network_chain.Base.Int.{ℤ, pos, pos_part, neg_part, ◌+ℤ◌, ◌-ℤ◌, ltb_ℤ}
use earth_network_chain.Allocation.State.{Stream, caretaker, groundworks, Store, stream_of}
use earth_network_chain.Allocation.Coins.{Coins}

-- `SolvencyReport`.
pub record SolvencyReport : Type 0 where
  pub accrued : ℤ
  pub residue : ℕ
  pub held : ℕ
  pub short : ℤ
  pub surplus : ℤ

-- `SolvencyReport.Broken`.
abbrev pub is_short : SolvencyReport → Bool
is_short r = not (pos_part r.short == 0)

-- `WeightReport`.
pub record WeightReport : Type 0 where
  pub stream : Stream
  pub declared : ℤ
  pub summed : ℤ

-- `WeightReport.Broken`.
abbrev pub is_drifted : WeightReport → Bool
is_drifted r =
    not (pos_part r.declared == pos_part r.summed && neg_part r.declared == neg_part r.summed)

-- `CheckStreamWeightBounded`.
abbrev pub check_stream_weight_bounded : Stream → Store → WeightReport
check_stream_weight_bounded st s = record {
  stream = st;
  declared = (stream_of st s).total_weight;
  summed = (stream_of st s).summed_weight;
}

module _ (k : Coins) where
  -- `CheckSolvency`.
  unfoldable pub check_solvency : Store → k.State → SolvencyReport
  check_solvency s b =
      let owed = s.summed_accrued +ℤ pos s.residue in
      record {
        accrued = s.summed_accrued;
        residue = s.residue;
        held = k.held b;
        short = if ltb_ℤ (pos (k.held b)) owed then owed -ℤ pos (k.held b) else pos 0;
        surplus = if ltb_ℤ owed (pos (k.held b)) then pos (k.held b) -ℤ owed else pos 0;
      }

  -- `AssertHotInvariants`: whether the block may go on.
  unfoldable pub assert_hot_invariants : Store → k.State → Bool
  unfolding check_solvency
  assert_hot_invariants s b =
      not (is_short (check_solvency s b))
      && (not (is_drifted (check_stream_weight_bounded caretaker s))
          && not (is_drifted (check_stream_weight_bounded groundworks s)))

-- ===== src/Allocation/Votes/Splits.antt =====
-- `ValidateSplit` of x/allocation against what a split may be.
use earth_network_chain.Base.{
  ℕ, ◌+◌, ◌≤◌, ◌<◌, ◌≡◌, refl, ap, ◌∙◌, true, false, not, ◌&&◌, ltb, ◌==◌, some, List, [], ◌∷◌,
  length, arith, Bool-cases, inl, inr, ◌⊎◌, ok, fail_if, or_err, ◌>>=◌, >>=-eq-ok, fail_if-ok,
  or_err-ok, bad_percentages, option_not_found, option_removed,
}
use earth_network_chain.Base.Maps.{Map, get}
use earth_network_chain.Allocation.State.{AllocationWeight, AllocationOption}
use earth_network_chain.Allocation.Votes.{is_member, is_empty, max_voter_options}
use earth_network_chain.Allocation.Votes.External.{validate_share, validate_shares, validate_split}

-- The sum of the shares.
abbrev pub shares_sum : List AllocationWeight → ℕ
shares_sum [] = 0
shares_sum (w ∷ ws) = w.percent + shares_sum ws

-- A share of 1 to 100 percent of a live option that was not seen yet.
pub record IsShare (options : Map AllocationOption) (seen : List ℕ) (w : AllocationWeight)
    : Type 0 where
  pub positive : 0 < w.percent
  pub bounded : w.percent ≤ 100
  pub unseen : is_member w.option_id seen ≡ false
  pub live : (o : AllocationOption) × (get w.option_id options ≡ some o) × (o.removed ≡ false)

abbrev pub AreShares : Map AllocationOption → List ℕ → List AllocationWeight → Type 0
AreShares options seen [] = Unit
AreShares options seen (w ∷ ws) = IsShare options seen w × AreShares options (w.option_id ∷ seen) ws

-- A split: at most twenty shares of distinct live options that make a hundred percent, or none.
pub record IsSplit (options : Map AllocationOption) (ps : List AllocationWeight) : Type 0 where
  pub short : length ps ≤ max_voter_options
  pub shares : AreShares options [] ps
  pub whole : (ps ≡ []) ⊎ (shares_sum ps ≡ 100)

module _ (options : Map AllocationOption) where
  validate_share-IsShare :
      (seen : List ℕ) (w : AllocationWeight) (u : Unit {0})
      → validate_share options seen w ≡ ok u
      → IsShare options seen w
  validate_share-IsShare seen w u q =
      let (u0, e0, q0) = >>=-eq-ok (fail_if (w.percent == 0) bad_percentages) _ q in
      let (u1, e1, q1) = >>=-eq-ok (fail_if (ltb 100 w.percent) bad_percentages) _ q0 in
      let (u2, e2, q2) = >>=-eq-ok (fail_if (is_member w.option_id seen) bad_percentages) _ q1 in
      let (o, eo, q3) = >>=-eq-ok (or_err (get w.option_id options) option_not_found) _ q2 in
      let positive = fail_if-ok (w.percent == 0) bad_percentages e0 in
      let bounded = fail_if-ok (ltb 100 w.percent) bad_percentages e1 in
      record {
        positive = ground (arith, positive);
        bounded = ground (arith, bounded);
        unseen = fail_if-ok (is_member w.option_id seen) bad_percentages e2;
        live = (
          o,
          or_err-ok (get w.option_id options) option_not_found eo,
          fail_if-ok o.removed option_removed q3,
        );
      }

  IsShare-validate_share :
      (seen : List ℕ) (w : AllocationWeight)
      → IsShare options seen w
      → validate_share options seen w ≡ ok tt
  IsShare-validate_share seen w h =
      let (o, e, present) = h.live in
      let some_share : (w.percent == 0) ≡ false = ground (arith, h.positive) in
      let small : ltb 100 w.percent ≡ false = ground (arith, h.bounded) in
      rw (some_share, small, h.unseen, e, present) refl

  validate_shares-AreShares :
      (seen : List ℕ) (sum : ℕ) (ps : List AllocationWeight) (n : ℕ)
      → validate_shares options seen sum ps ≡ ok n
      → AreShares options seen ps × (n ≡ sum + shares_sum ps)
  unfolding validate_shares
  validate_shares-AreShares seen sum [] n q = let e : sum ≡ n = cc in (tt, omega arith)
  validate_shares-AreShares seen sum (w ∷ ws) n q =
      let (u, e, q1) = >>=-eq-ok (validate_share options seen w) _ q in
      let (rest, en) = validate_shares-AreShares (w.option_id ∷ seen) (sum + w.percent) ws n q1 in
      ((validate_share-IsShare seen w u e, rest), omega arith)

  AreShares-validate_shares :
      (seen : List ℕ) (sum : ℕ) (ps : List AllocationWeight)
      → AreShares options seen ps
      → validate_shares options seen sum ps ≡ ok (sum + shares_sum ps)
  unfolding validate_shares
  AreShares-validate_shares seen sum [] h = ap ok (omega arith)
  AreShares-validate_shares seen sum (w ∷ ws) (h, rest) =
      ap (λ m. m >>= λ u. validate_shares options (w.option_id ∷ seen) (sum + w.percent) ws)
        (IsShare-validate_share seen w h)
      ∙ AreShares-validate_shares (w.option_id ∷ seen) (sum + w.percent) ws rest
      ∙ ap ok (omega arith)

  is_empty-eq : (ps : List AllocationWeight) → is_empty ps ≡ true → ps ≡ []
  is_empty-eq [] e = refl
  is_empty-eq (w ∷ ws) e = cc

  accepted : (ps : List AllocationWeight) → validate_split options ps ≡ ok tt → IsSplit options ps
  unfolding validate_split
  accepted ps q =
      let (u0, e0, q0) =
        >>=-eq-ok (fail_if (ltb max_voter_options (length ps)) bad_percentages) _ q in
      let (sum, es, q1) = >>=-eq-ok (validate_shares options [] 0 ps) _ q0 in
      let (shares, e) = validate_shares-AreShares [] 0 ps sum es in
      let short = fail_if-ok (ltb max_voter_options (length ps)) bad_percentages e0 in
      let total = fail_if-ok (not (is_empty ps) && not (sum == 100)) bad_percentages q1 in
      record {
        short = ground (arith, short);
        shares = shares;
        whole = elim (Bool-cases (is_empty ps)) [
          | inl none_given ↦ inl (is_empty-eq ps none_given)
          | inr given ↦ inr (ground (arith, total, e))
        ];
      }

  accepts : (ps : List AllocationWeight) → IsSplit options ps → validate_split options ps ≡ ok tt
  unfolding validate_split
  accepts ps h =
      let short : ltb max_voter_options (length ps) ≡ false = ground (arith, h.short) in
      let total : (not (is_empty ps) && not (0 + shares_sum ps == 100)) ≡ false = whole h.whole in
      rw (short, AreShares-validate_shares [] 0 ps h.shares, total) refl
    where
      whole :
          (ps ≡ []) ⊎ (shares_sum ps ≡ 100)
          → (not (is_empty ps) && not (0 + shares_sum ps == 100)) ≡ false
      whole (inl e) = rw e refl
      whole (inr e) = ground (arith, e)

  -- `ValidateSplit` accepts a split exactly where it has at most twenty shares, each of 1 to 100
  -- percent of another option that is there and was not struck, which make a hundred percent or are
  -- none at all.
  pub validate_split-IsSplit :
      (ps : List AllocationWeight)
      → (validate_split options ps ≡ ok tt → IsSplit options ps)
        × (IsSplit options ps → validate_split options ps ≡ ok tt)
  validate_split-IsSplit ps = (accepted ps, accepts ps)

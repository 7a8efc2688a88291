-- ===== src/Allocation/Votes/Sweep.antt =====
-- `SweepLapses` of x/allocation ends: every round retires or refiles what is due at its time.
use earth_network_chain.Base.{
  ℕ, suc, ◌≤◌, ◌<◌, ◌≡◌, refl, sym, subst, ap, ◌∙◌, true, false, not, ◌||◌, ltb, ◌==◌, Option, none,
  some, List, [], ◌∷◌, arith, Bool-cases, Option-cases, inl, inr,
}
use earth_network_chain.Base.Maps.{get, Every}
use earth_network_chain.Allocation.State.{
  Stream, caretaker, groundworks, AllocationOption, Voter, StreamState, Store, stream_of,
  with_stream,
}
use earth_network_chain.Allocation.Options.{set_option}
use earth_network_chain.Allocation.Booked.{stream_of-with_stream}
use earth_network_chain.Base.Int.{ℤ, ◌-ℤ◌}
use earth_network_chain.Allocation.Votes.Moves.{set_option-keeps_stream}
use earth_network_chain.Allocation.Votes.Loops.{live-cases, move_one-gone, move_one-live}
use earth_network_chain.Allocation.Votes.{
  Contribution, move_one, move_each, taken_off, is_member, lapse_insert, lapse_remove, split_record,
  write_voter, without_lease,
}
use earth_network_chain.Allocation.Votes.Lapses.{requeued, retire}
use earth_network_chain.Allocation.Votes.Queue.{
  IsOrdered, due_count, remove-Every_lease, insert-Every_lease, remove-IsOrdered, insert-IsOrdered,
  due_count-remove, due_count-insert, AreAt, remove-AreAt,
}

abbrev pub queue : Stream → Store → List (ℕ × ℕ)
queue st s = (stream_of st s).voter_lapses

-- The queue while the leases at `t` are retired: ordered, nothing before `t`, what is left at `t` the
-- leases of some addresses, and no more due after `t` than before.
pub record Retiring (now t : ℕ) (addrs : List ℕ) (q q' : List (ℕ × ℕ)) : Type 0 where
  pub ordered : IsOrdered q'
  pub least : Every (λ u b. t ≤ u) q'
  pub left : AreAt t addrs q'
  pub fewer : due_count (suc t) now q' ≤ due_count (suc t) now q

pub remove-Retiring :
    (now t a : ℕ) (addrs : List ℕ) (q q' : List (ℕ × ℕ))
    → Retiring now t (a ∷ addrs) q q'
    → Retiring now t addrs q (lapse_remove (t, a) q')
remove-Retiring now t a addrs q q' h = record {
  ordered = remove-IsOrdered t a q' h.ordered;
  least = remove-Every_lease (λ u b. t ≤ u) t a q' h.least;
  left = remove-AreAt t a addrs q' h.left;
  fewer = omega (arith, h.fewer, due_count-remove (suc t) now t a q');
}

remove_other-Retiring :
    (now t u a : ℕ) (addrs : List ℕ) (q q' : List (ℕ × ℕ))
    → Retiring now t addrs q q'
    → Retiring now t addrs q (lapse_remove (u, a) q')
remove_other-Retiring now t u a addrs q q' h = record {
  ordered = remove-IsOrdered u a q' h.ordered;
  least = remove-Every_lease (λ v b. t ≤ v) u a q' h.least;
  left = remove-Every_lease (λ v b. v ≡ t → is_member b addrs ≡ true) u a q' h.left;
  fewer = omega (arith, h.fewer, due_count-remove (suc t) now u a q');
}

-- A lease that is filed again is due after the block, and after `t`.
pub insert-Retiring :
    (now t u a : ℕ) (addrs : List ℕ) (q q' : List (ℕ × ℕ))
    → now < u
    → t < u
    → Retiring now t addrs q q'
    → Retiring now t addrs q (lapse_insert (u, a) q')
insert-Retiring now t u a addrs q q' late later h = record {
  ordered = insert-IsOrdered u a q' h.ordered;
  least = insert-Every_lease (λ v b. t ≤ v) u a q' (omega arith) h.least;
  left =
      insert-Every_lease (λ v b. v ≡ t → is_member b addrs ≡ true) u a q'
        (λ e. absurd (omega arith)) h.left;
  fewer = omega (arith, h.fewer, due_count-insert (suc t) now u a q' late);
}

pub queue-requeued : (st : Stream) (q : List (ℕ × ℕ)) (s : Store) → queue st (requeued st q s) ≡ q
queue-requeued caretaker q s = refl
queue-requeued groundworks q s = refl

-- A vote that is removed takes its lease off the queue, and nothing else.
set_option-queue :
    (now : ℕ) (st : Stream) (o : AllocationOption) (s : Store)
    → queue st (set_option now st o s) ≡ queue st s
set_option-queue now st o s =
    set_option-keeps_stream (λ x. x.voter_lapses ≡ queue st s) (λ x due h. h) now st o s st
      (ap (λ x. x.voter_lapses) (stream_of-with_stream st _ _ s.residue s.prune_queue s))

module _ (now : ℕ) (st : Stream) (index : ℕ) (op : ℤ → ℤ → ℤ) where
  move_one-queue :
      (c : Contribution) (total : ℤ) (s : Store)
      → queue st ((move_one now st index op c total s).1) ≡ queue st s
  move_one-queue c total s = elim (live-cases c.option (stream_of st s).options) [
    | inl gone ↦ ap (λ r. queue st (r.1)) (move_one-gone now st index op c total s gone)
    | inr (o, e, present) ↦
        ap (λ r. queue st (r.1)) (move_one-live now st index op c total s o e present)
        ∙ set_option-queue now st _ s
  ]

  move_each-queue :
      (cs : List Contribution) (total : ℤ) (s : Store)
      → queue st ((move_each now st index op cs total s).1) ≡ queue st s
  unfolding move_each
  move_each-queue [] total s = refl
  move_each-queue (c ∷ cs) total s =
      let r = move_one now st index op c total s in
      move_each-queue cs (r.0) (r.1) ∙ move_one-queue c total s

queue-with_stream :
    (st : Stream) (x : StreamState) (s : Store) → queue st (with_stream st x s) ≡ x.voter_lapses
queue-with_stream caretaker x s = refl
queue-with_stream groundworks x s = refl

write_voter-queue :
    (now : ℕ) (st : Stream) (addr : ℕ) (rec : Voter) (s : Store)
    → queue st (write_voter now st addr rec [] false s)
      ≡ without_lease addr (get addr (stream_of st s).voters) (queue st s)
unfolding write_voter move_each
write_voter-queue now st addr rec s =
    let x = stream_of st s in
    let off = taken_off x.epoch (get addr x.voters) in
    queue-with_stream st _ _
    ∙ ap (without_lease addr (get addr x.voters))
        (move_each-queue now st x.reward_index ◌-ℤ◌ off x.total_weight s)

without_lease-Retiring :
    (now t addr : ℕ) (addrs : List ℕ) (old : Option Voter) (q q' : List (ℕ × ℕ))
    → Retiring now t addrs q q'
    → Retiring now t addrs q (without_lease addr old q')
without_lease-Retiring now t addr addrs none q q' h = h
without_lease-Retiring now t addr addrs (some old) q q' h =
    elim (Bool-cases (old.expires_at == 0)) [
      | inl unleased ↦ rw unleased h
      | inr leased ↦ rw leased (remove_other-Retiring now t old.expires_at addr addrs q q' h)
    ]

pub retire-Retiring :
    (now : ℕ) (st : Stream) (t addr : ℕ) (addrs : List ℕ) (q : List (ℕ × ℕ)) (s : Store)
    → Retiring now t (addr ∷ addrs) q (queue st s)
    → Retiring now t addrs q (queue st (retire now st t addr s))
unfolding retire
retire-Retiring now st t addr addrs q s h = elim (Option-cases (get addr (stream_of st s).voters)) [
  | inl absent ↦ rw (absent, retire) off
  | inr (v, e) ↦ elim (Bool-cases (ltb t v.expires_at || not (v.epoch == (stream_of st s).epoch))) [
    | inl kept ↦ rw (e, retire, kept) off
    | inr lapsed ↦
        rw (e, retire, lapsed)
          (subst (Retiring now t addrs q)
            (sym (write_voter-queue now st addr (split_record [] 0 0) s1))
            (without_lease-Retiring now t addr addrs (get addr (stream_of st s1).voters) q
              (queue st s1) off))
  ]
]
  where
    s1 : Store
    s1 = requeued st (lapse_remove (t, addr) (queue st s)) s

    off : Retiring now t addrs q (queue st s1)
    off =
        subst (Retiring now t addrs q)
          (sym (queue-requeued st (lapse_remove (t, addr) (queue st s)) s))
          (remove-Retiring now t addr addrs q (queue st s) h)

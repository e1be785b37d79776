-- ===== src/Fsbl/Load/Loop.antt =====
-- The loop of `LoadBootImage` of zynq-7000-tips-tricks/fsbl/image_mover.c, from the lemmas on a round.
use software_prototypes.Base.{
  ℕ, zero, suc, refl, ◌-◌, ◌<◌, ◌≡◌, true, false, List, [], arith, ltb, get_or, inl, inr,
  Bool-cases,
}
use software_prototypes.Machine.{Env, World, ok, is_settled, ◌>>=◌}
use software_prototypes.Machine.Laws.{>>=-post, >>=-settled}
use software_prototypes.Fsbl.Header.{Header}
use software_prototypes.Fsbl.System.{Config, Globals, Call, Fsbl, has, member}
use software_prototypes.Fsbl.Partition.{Locals, Round, next, exit, load_partition}
use software_prototypes.Fsbl.Partition.Stages.{Safe}
use software_prototypes.Fsbl.Partition.Frame.{load_partition-Frame}
use software_prototypes.Fsbl.Partition.Authentic.{load_partition-Safe}
use software_prototypes.Fsbl.Load.{after_round, load_loop}

module _ (c : Config) (e : Env Call) where
  after_round-Safe :
      (hs : List Header) (n : ℕ) (again : Locals → Fsbl ℕ) (r : Round) (w : World Call Globals)
      → Safe e hs n w
      → ((loc : Locals) → Safe e hs n (again loc e w).1)
      → Safe e hs n (after_round c again r e w).1
  unfolding after_round
  after_round-Safe hs n again (next loc) w s k = k loc
  after_round-Safe hs n again (exit loc) w s k = s

  load_loop_more :
      (fuel base num : ℕ) (loc : Locals) (w : World Call Globals)
      → ltb num w.globals.partition_count ≡ true
      → load_loop c (suc fuel) base num loc e w
        ≡ (load_partition c base num loc >>= after_round c (load_loop c fuel base (suc num))) e w
  unfolding load_loop
  load_loop_more fuel base num loc w more = ground arith

  load_loop_done :
      (fuel base num : ℕ) (loc : Locals) (w : World Call Globals)
      → ltb num w.globals.partition_count ≡ false
      → load_loop c (suc fuel) base num loc e w ≡ (ok loc.exec_address, w)
  unfolding load_loop
  load_loop_done fuel base num loc w done = ground arith

  pub load_loop-Safe :
      (hs : List Header) (n : ℕ)
      → ((i : ℕ)
          → i < n
          → has (member (get_or hs i []) c.layout.partition_attr) c.rsa_present_mask ≡ true)
      → (fuel base num : ℕ) (loc : Locals) (w : World Call Globals) → Safe e hs n w
      → Safe e hs n (load_loop c fuel base num loc e w).1
  unfolding load_loop
  load_loop-Safe hs n sig zero base num loc w s = s
  load_loop-Safe hs n sig (suc fuel) base num loc w s =
      elim (Bool-cases (ltb num w.globals.partition_count)) [
        | inl more ↦
            let s' = load_partition-Safe c e hs n base num loc w (sig num (ground arith)) s in
            rw (load_loop_more fuel base num loc w more) (
              >>=-post (Safe e hs n) e (load_partition c base num loc)
                (after_round c (load_loop c fuel base (suc num))) w s'
                λ r _.
                  after_round-Safe hs n (load_loop c fuel base (suc num)) r _ s'
                    λ loc'. load_loop-Safe hs n sig fuel base (suc num) loc' _ s')
        | inr done ↦ rw (load_loop_done fuel base num loc w done) s
      ]

  after_round-returns :
      (again : Locals → Fsbl ℕ) (r : Round) (w : World Call Globals)
      → ((loc : Locals) → is_settled (again loc e w).0 ≡ true)
      → is_settled (after_round c again r e w).0 ≡ true
  unfolding after_round
  after_round-returns again (next loc) w k = k loc
  after_round-returns again (exit loc) w k = refl

  -- The loop ends: with a round of fuel more than there are partitions left, it does not hang.
  pub load_loop-returns :
      (fuel base num : ℕ) (loc : Locals) (w : World Call Globals)
      → w.globals.partition_count - num < fuel
      → is_settled (load_loop c fuel base num loc e w).0 ≡ true
  unfolding load_loop
  load_loop-returns zero base num loc w p = absurd (omega arith)
  load_loop-returns (suc fuel) base num loc w p =
      elim (Bool-cases (ltb num w.globals.partition_count)) [
        | inl more ↦
            let f = load_partition-Frame c e base num loc w in
            rw (load_loop_more fuel base num loc w more) (
              >>=-settled e (load_partition c base num loc)
                (after_round c (load_loop c fuel base (suc num))) w f.returns
                λ r.
                  after_round-returns (load_loop c fuel base (suc num)) r _
                    λ loc'. load_loop-returns fuel base (suc num) loc' _ (ground (arith, f.count)))
        | inr done ↦ rw (load_loop_done fuel base num loc w done) (refl)
      ]

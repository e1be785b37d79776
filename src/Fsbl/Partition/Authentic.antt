-- ===== src/Fsbl/Partition/Authentic.antt =====
-- A round of the loop of `LoadBootImage` in zynq-7000-tips-tricks/fsbl/image_mover.c, on a partition
-- that is signed.
use software_prototypes.Base.{ℕ, ◌≡◌, ap, ◌∙◌, true, List, [], arith, get_or}
use software_prototypes.Machine.{Env, World}
use software_prototypes.Machine.Laws.{>>=-post}
use software_prototypes.Fsbl.Header.{Header}
use software_prototypes.Fsbl.System.{Config, Globals, Call, has, member}
use software_prototypes.Fsbl.Partition.{
  Locals, classify_pl, classify_ps, set_flags, check_load_addr, move_or_locate, check_partition,
  hook_before, keep_exec, check_and_finish, move_and_check, transfer, load_flagged, load_classified,
  load_owned, load_partition,
}
use software_prototypes.Fsbl.Partition.Stages.{
  Safe, classify_pl-Safe, classify_ps-Safe, set_flags-Safe, set_flags-signed, check_load_addr-Safe,
  check_load_addr-globals, check_partition-Safe, hook_before-Safe, hook_before-globals,
  hook_after-Safe, move_or_locate-Safe, move_or_locate-globals,
}

module _ (c : Config) (e : Env Call) (hs : List Header) (n : ℕ) where
  check_and_finish-Safe :
      (base start : ℕ) (loc : Locals) (h : Header) (w : World Call Globals)
      → w.globals.signed ≡ true
      → Safe e hs n w
      → Safe e hs n (check_and_finish c base start loc h e w).1
  unfolding check_and_finish
  check_and_finish-Safe base start loc h w t s = ground (
    arith,
    check_partition-Safe c e hs n base start h w t s,
    hook_after-Safe c e hs n (check_partition c base start h e w).1,
  )

  move_and_check-Safe :
      (base : ℕ) (loc : Locals) (h : Header) (w : World Call Globals)
      → w.globals.signed ≡ true
      → Safe e hs n w
      → Safe e hs n (move_and_check c base loc h e w).1
  unfolding move_and_check
  move_and_check-Safe base loc h w t s =
      >>=-post (Safe e hs n) e (move_or_locate c base h)
        (λ start. check_and_finish c base start loc h) w (move_or_locate-Safe c e hs n base h w t s)
        λ start _.
          check_and_finish-Safe base start loc h (move_or_locate c base h e w).1
            (ap Globals.signed (move_or_locate-globals c e hs n base h w) ∙ t)
            (move_or_locate-Safe c e hs n base h w t s)

  transfer-Safe :
      (base : ℕ) (loc : Locals) (h : Header) (w : World Call Globals)
      → w.globals.signed ≡ true
      → Safe e hs n w
      → Safe e hs n (transfer c base loc h e w).1
  unfolding transfer
  transfer-Safe base loc h w t s = ground (
    arith,
    hook_before-Safe c e hs n w s,
    hook_before-globals c e hs n w,
    move_and_check-Safe base (keep_exec c w.globals loc h) h (hook_before c e w).1,
  )

  load_flagged-Safe :
      (base : ℕ) (loc : Locals) (h : Header) (w : World Call Globals)
      → w.globals.signed ≡ true
      → Safe e hs n w
      → Safe e hs n (load_flagged c base loc h e w).1
  unfolding load_flagged
  load_flagged-Safe base loc h w t s =
      let load = member h c.layout.load_addr in
      ground (
        arith,
        check_load_addr-Safe c e hs n load w s,
        check_load_addr-globals c e hs n load w,
        transfer-Safe base loc h (check_load_addr c load e w).1,
      )

  load_classified-Safe :
      (base : ℕ) (loc : Locals) (h : Header) (w : World Call Globals)
      → has (member h c.layout.partition_attr) c.rsa_present_mask ≡ true
      → Safe e hs n w
      → Safe e hs n (load_classified c base loc h e w).1
  unfolding load_classified
  load_classified-Safe base loc h w t s =
      let w1 = (classify_ps c (member h c.layout.partition_attr) e w).1 in
      ground (
        arith,
        classify_ps-Safe c e hs n (member h c.layout.partition_attr) w s,
        set_flags-Safe c e hs n h w1,
        set_flags-signed c e hs n h w1,
        load_flagged-Safe base loc h (set_flags c h e w1).1,
      )

  load_owned-Safe :
      (base : ℕ) (loc : Locals) (h : Header) (w : World Call Globals)
      → has (member h c.layout.partition_attr) c.rsa_present_mask ≡ true
      → Safe e hs n w
      → Safe e hs n (load_owned c base loc h e w).1
  unfolding load_owned
  load_owned-Safe base loc h w t s =
      let attr = member h c.layout.partition_attr in
      ground (
        arith,
        classify_pl-Safe c e hs n attr w s,
        load_classified-Safe base loc h (classify_pl c attr e w).1,
      )

  pub load_partition-Safe :
      (base num : ℕ) (loc : Locals) (w : World Call Globals)
      → has (member (get_or hs num []) c.layout.partition_attr) c.rsa_present_mask ≡ true
      → Safe e hs n w
      → Safe e hs n (load_partition c base num loc e w).1
  unfolding load_partition
  load_partition-Safe base num loc w t s =
      ground (arith, load_owned-Safe base loc (get_or w.globals.partition_header num []) w)

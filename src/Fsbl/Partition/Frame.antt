-- ===== src/Fsbl/Partition/Frame.antt =====
-- What a round of the loop of `LoadBootImage` in zynq-7000-tips-tricks/fsbl/image_mover.c leaves
-- alone: the table of headers and its count. And it does not wait for ever.
use software_prototypes.Base.{ℕ, ◌≡◌, true, [], arith, get_or}
use software_prototypes.Machine.{Env, World, Outcome, is_settled}
use software_prototypes.Fsbl.Header.{Header}
use software_prototypes.Fsbl.System.{Config, Globals, Call, member}
use software_prototypes.Fsbl.Move.{partition_move, decrypt_partition}
use software_prototypes.Fsbl.Image.{validate_partition}
use software_prototypes.Fsbl.Partition.{
  Locals, classify_pl, classify_ps, set_flags, check_load_addr, note_addresses, move_partition,
  move_some, move_or_locate, check_checksum, check_signed, checked_addr, check_both,
  check_partition, hook_before, hook_after, keep_exec, check_and_finish, move_and_check, transfer,
  load_flagged, load_classified, load_owned, load_partition,
}
use software_prototypes.Word.{add32, shl32}

pub record Frame {A : Type 0} (w : World Call Globals) (r : Outcome A × World Call Globals)
    : Type 0 where
  pub table : r.1.globals.partition_header ≡ w.globals.partition_header
  pub count : r.1.globals.partition_count ≡ w.globals.partition_count
  pub returns : is_settled r.0 ≡ true

module _ (c : Config) (e : Env Call) where
  classify_pl-Frame : (attr : ℕ) (w : World Call Globals) → Frame w (classify_pl c attr e w)
  unfolding classify_pl
  classify_pl-Frame attr w = ground arith

  classify_ps-Frame : (attr : ℕ) (w : World Call Globals) → Frame w (classify_ps c attr e w)
  unfolding classify_ps
  classify_ps-Frame attr w = ground arith

  set_flags-Frame : (h : Header) (w : World Call Globals) → Frame w (set_flags c h e w)
  unfolding set_flags
  set_flags-Frame h w = ground arith

  check_load_addr-Frame : (load : ℕ) (w : World Call Globals) → Frame w (check_load_addr c load e w)
  unfolding check_load_addr
  check_load_addr-Frame load w = ground arith

  note_addresses-Frame :
      (base : ℕ) (h : Header) (w : World Call Globals) → Frame w (note_addresses c base h e w)
  unfolding note_addresses
  note_addresses-Frame base h w = ground arith

  partition_move-Frame :
      (base : ℕ) (h : Header) (w : World Call Globals) → Frame w (partition_move c base h e w)
  unfolding partition_move
  partition_move-Frame base h w = ground arith

  move_partition-Frame :
      (base : ℕ) (h : Header) (w : World Call Globals) → Frame w (move_partition c base h e w)
  unfolding move_partition
  move_partition-Frame base h w = ground (arith, partition_move-Frame base h w)

  move_some-Frame :
      (base : ℕ) (h : Header) (w : World Call Globals) → Frame w (move_some c base h e w)
  unfolding move_some
  move_some-Frame base h w = ground (arith, move_partition-Frame base h w)

  move_or_locate-Frame :
      (base : ℕ) (h : Header) (w : World Call Globals) → Frame w (move_or_locate c base h e w)
  unfolding move_or_locate
  move_or_locate-Frame base h w = ground (
    arith,
    move_partition-Frame base h w,
    note_addresses-Frame base h w,
    move_some-Frame base h (note_addresses c base h e w).1,
  )

  validate_partition-Frame :
      (start length offset : ℕ) (w : World Call Globals)
      → Frame w (validate_partition c start length offset e w)
  unfolding validate_partition
  validate_partition-Frame start length offset w = ground arith

  check_checksum-Frame :
      (base start : ℕ) (h : Header) (w : World Call Globals)
      → Frame w (check_checksum c base start h e w)
  unfolding check_checksum
  check_checksum-Frame base start h w = ground (
    arith,
    validate_partition-Frame start (shl32 (member h c.layout.partition_word_len) 2)
        (add32 base (shl32 (member h c.layout.checksum_offset) 2)) w,
  )

  check_signed-Frame :
      (start : ℕ) (h : Header) (w : World Call Globals) → Frame w (check_signed c start h e w)
  unfolding check_signed decrypt_partition
  check_signed-Frame start h w = ground arith

  check_both-Frame :
      (base start : ℕ) (h : Header) (w : World Call Globals)
      → Frame w (check_both c base start h e w)
  unfolding check_both
  check_both-Frame base start h w = ground (
    arith,
    check_checksum-Frame base start h w,
    check_signed-Frame start h (check_checksum c base start h e w).1,
  )

  check_partition-Frame :
      (base start : ℕ) (h : Header) (w : World Call Globals)
      → Frame w (check_partition c base start h e w)
  unfolding check_partition
  check_partition-Frame base start h w =
      ground (arith, check_both-Frame base (checked_addr c w.globals start h) h w)

  hook_before-Frame : (w : World Call Globals) → Frame w (hook_before c e w)
  unfolding hook_before
  hook_before-Frame w = ground arith

  hook_after-Frame : (w : World Call Globals) → Frame w (hook_after c e w)
  unfolding hook_after
  hook_after-Frame w = ground arith

  check_and_finish-Frame :
      (base start : ℕ) (loc : Locals) (h : Header) (w : World Call Globals)
      → Frame w (check_and_finish c base start loc h e w)
  unfolding check_and_finish
  check_and_finish-Frame base start loc h w = ground (
    arith,
    check_partition-Frame base start h w,
    hook_after-Frame (check_partition c base start h e w).1,
  )

  move_and_check-Frame :
      (base : ℕ) (loc : Locals) (h : Header) (w : World Call Globals)
      → Frame w (move_and_check c base loc h e w)
  unfolding move_and_check
  move_and_check-Frame base loc h w = grind (
    arith,
    move_or_locate-Frame base h w,
    λ (start : ℕ). check_and_finish-Frame base start loc h (move_or_locate c base h e w).1,
  )

  transfer-Frame :
      (base : ℕ) (loc : Locals) (h : Header) (w : World Call Globals)
      → Frame w (transfer c base loc h e w)
  unfolding transfer
  transfer-Frame base loc h w = ground (
    arith,
    hook_before-Frame w,
    move_and_check-Frame base (keep_exec c w.globals loc h) h (hook_before c e w).1,
  )

  load_flagged-Frame :
      (base : ℕ) (loc : Locals) (h : Header) (w : World Call Globals)
      → Frame w (load_flagged c base loc h e w)
  unfolding load_flagged
  load_flagged-Frame base loc h w =
      let load = member h c.layout.load_addr in
      ground (
        arith,
        check_load_addr-Frame load w,
        transfer-Frame base loc h (check_load_addr c load e w).1,
      )

  load_classified-Frame :
      (base : ℕ) (loc : Locals) (h : Header) (w : World Call Globals)
      → Frame w (load_classified c base loc h e w)
  unfolding load_classified
  load_classified-Frame base loc h w =
      let w1 = (classify_ps c (member h c.layout.partition_attr) e w).1 in
      ground (
        arith,
        classify_ps-Frame (member h c.layout.partition_attr) w,
        set_flags-Frame h w1,
        load_flagged-Frame base loc h (set_flags c h e w1).1,
      )

  load_owned-Frame :
      (base : ℕ) (loc : Locals) (h : Header) (w : World Call Globals)
      → Frame w (load_owned c base loc h e w)
  unfolding load_owned
  load_owned-Frame base loc h w =
      let attr = member h c.layout.partition_attr in
      ground (
        arith,
        classify_pl-Frame attr w,
        load_classified-Frame base loc h (classify_pl c attr e w).1,
      )

  pub load_partition-Frame :
      (base num : ℕ) (loc : Locals) (w : World Call Globals)
      → Frame w (load_partition c base num loc e w)
  unfolding load_partition
  load_partition-Frame base num loc w =
      ground (arith, load_owned-Frame base loc (get_or w.globals.partition_header num []) w)

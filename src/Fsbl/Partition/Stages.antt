-- ===== src/Fsbl/Partition/Stages.antt =====
-- The parts of the loop body of `LoadBootImage` in zynq-7000-tips-tricks/fsbl/image_mover.c, and the
-- invariant that a download of a bitstream stands behind the authentication of its data.
use software_prototypes.Base.{ℕ, ◌≡◌, ap, ◌∙◌, true, false, ◌&&◌, List, [], ◌∷◌, arith}
use software_prototypes.Machine.Laws.{>>=-post, when-post}
use software_prototypes.Word.{add32, shl32}
use software_prototypes.Machine.{Env, World, ok, success}
use software_prototypes.Fsbl.Header.{Header}
use software_prototypes.Fsbl.System.{
  Config, Globals, Call, sha_256, dcache_flush, dcache_disable, authenticate_partition,
  pcap_load_partition, has, member,
}
use software_prototypes.Fsbl.Move.{decrypt_partition, partition_move, move_by_cpu, move_by_pcap}
use software_prototypes.Fsbl.Image.{validate_partition}
use software_prototypes.Fsbl.Partition.{
  classify_pl, classify_ps, set_flags, check_load_addr, move_or_locate, check_checksum,
  note_addresses, move_partition, move_some, check_signed, check_both, checked_addr,
  check_partition, hook_before, hook_after,
}

-- The last calls were the hash of the data at `source` and its successful authentication.
abbrev pub JustAuthenticated : Env Call → ℕ → List Call → Type 0
JustAuthenticated e source
      (dcache_disable ∷ dcache_flush ∷ authenticate_partition ac hash ∷ sha_256 start size ∷ log) =
    (start ≡ source)
    × (hash ≡ e.words log (sha_256 start size))
    × (e.status (sha_256 start size ∷ log) (authenticate_partition ac hash) ≡ success)
JustAuthenticated e source _ = ⊥

abbrev pub Allowed : Env Call → Call → List Call → Type 0
Allowed e (pcap_load_partition source _ _ _ _) log = JustAuthenticated e source log
Allowed e _ log = Unit

-- Every bitstream download in the log stands right behind the authentication of its data.
abbrev pub Authentic : Env Call → List Call → Type 0
Authentic e [] = Unit
Authentic e (k ∷ log) = Allowed e k log × Authentic e log

-- The invariant of the loop, over a table of headers that stays as it is.
pub record Safe (e : Env Call) (hs : List Header) (n : ℕ) (w : World Call Globals) : Type 0 where
  pub authentic : Authentic e w.log
  pub exclusive : (w.globals.pl && w.globals.ps) ≡ false
  pub table : w.globals.partition_header ≡ hs
  pub count : w.globals.partition_count ≡ n

module _ (c : Config) (e : Env Call) (hs : List Header) (n : ℕ) where
  pub classify_pl-Safe :
      (attr : ℕ) (w : World Call Globals) → Safe e hs n w → Safe e hs n (classify_pl c attr e w).1
  unfolding classify_pl
  classify_pl-Safe attr w s = ground arith

  pub classify_ps-Safe :
      (attr : ℕ) (w : World Call Globals) → Safe e hs n w → Safe e hs n (classify_ps c attr e w).1
  unfolding classify_ps
  classify_ps-Safe attr w s = ground arith

  pub set_flags-Safe :
      (h : Header) (w : World Call Globals) → Safe e hs n w → Safe e hs n (set_flags c h e w).1
  unfolding set_flags
  set_flags-Safe h w s = ground arith

  pub move_by_cpu-Safe :
      (base : ℕ) (h : Header) (w : World Call Globals)
      → Safe e hs n w
      → Safe e hs n (move_by_cpu c base h e w).1
  unfolding move_by_cpu
  move_by_cpu-Safe base h w s = ground arith

  pub move_by_pcap-Safe :
      (source load : ℕ) (h : Header) (w : World Call Globals)
      → Safe e hs n w
      → Safe e hs n (move_by_pcap c source load h e w).1
  unfolding move_by_pcap
  move_by_pcap-Safe source load h w s = ground arith

  -- A signed partition is not downloaded by the move.
  pub partition_move-Safe :
      (base : ℕ) (h : Header) (w : World Call Globals)
      → w.globals.signed ≡ true
      → Safe e hs n w
      → Safe e hs n (partition_move c base h e w).1
  unfolding partition_move
  partition_move-Safe base h w t s = ground arith

  pub check_load_addr-Safe :
      (load : ℕ) (w : World Call Globals)
      → Safe e hs n w
      → Safe e hs n (check_load_addr c load e w).1
  unfolding check_load_addr
  check_load_addr-Safe load w s = ground arith

  pub check_load_addr-globals :
      (load : ℕ) (w : World Call Globals) → (check_load_addr c load e w).1.globals ≡ w.globals
  unfolding check_load_addr
  check_load_addr-globals load w = ground arith

  -- The flags say that a partition is signed when its attributes do.
  pub set_flags-signed :
      (h : Header) (w : World Call Globals)
      → (set_flags c h e w).0 ≡ ok tt
      → (set_flags c h e w).1.globals.signed
        ≡ has (member h c.layout.partition_attr) c.rsa_present_mask
  unfolding set_flags
  set_flags-signed h w r = ground arith

  pub validate_partition-Safe :
      (start length offset : ℕ) (w : World Call Globals)
      → Safe e hs n w
      → Safe e hs n (validate_partition c start length offset e w).1
  unfolding validate_partition
  validate_partition-Safe start length offset w s = ground arith

  pub validate_partition-globals :
      (start length offset : ℕ) (w : World Call Globals)
      → (validate_partition c start length offset e w).1.globals ≡ w.globals
  unfolding validate_partition
  validate_partition-globals start length offset w = ground arith

  pub check_checksum-Safe :
      (base start : ℕ) (h : Header) (w : World Call Globals)
      → Safe e hs n w
      → Safe e hs n (check_checksum c base start h e w).1
  unfolding check_checksum
  check_checksum-Safe base start h w s = ground (
    arith,
    validate_partition-Safe start (shl32 (member h c.layout.partition_word_len) 2)
        (add32 base (shl32 (member h c.layout.checksum_offset) 2)) w s,
  )

  pub check_checksum-globals :
      (base start : ℕ) (h : Header) (w : World Call Globals)
      → (check_checksum c base start h e w).1.globals ≡ w.globals
  unfolding check_checksum
  check_checksum-globals base start h w = ground (
    arith,
    validate_partition-globals start (shl32 (member h c.layout.partition_word_len) 2)
        (add32 base (shl32 (member h c.layout.checksum_offset) 2)) w,
  )

  -- The bitstream of a signed partition is downloaded behind its authentication only.
  pub check_signed-Safe :
      (start : ℕ) (h : Header) (w : World Call Globals)
      → w.globals.signed ≡ true
      → Safe e hs n w
      → Safe e hs n (check_signed c start h e w).1
  unfolding check_signed decrypt_partition
  check_signed-Safe start h w t s = ground arith

  pub check_partition-Safe :
      (base start : ℕ) (h : Header) (w : World Call Globals)
      → w.globals.signed ≡ true
      → Safe e hs n w
      → Safe e hs n (check_partition c base start h e w).1
  unfolding check_partition check_both
  check_partition-Safe base start h w t s =
      when-post (Safe e hs n) e _ (check_both c base at h) w s λ _.
        >>=-post (Safe e hs n) e (check_checksum c base at h) (λ _. check_signed c at h) w
          (check_checksum-Safe base at h w s)
          λ _ _.
            check_signed-Safe at h (check_checksum c base at h e w).1
              (ap Globals.signed (check_checksum-globals base at h w) ∙ t)
              (check_checksum-Safe base at h w s)
    where
      at : ℕ
      at = checked_addr c w.globals start h

  pub hook_before-Safe :
      (w : World Call Globals) → Safe e hs n w → Safe e hs n (hook_before c e w).1
  unfolding hook_before
  hook_before-Safe w s = ground arith

  pub hook_before-globals : (w : World Call Globals) → (hook_before c e w).1.globals ≡ w.globals
  unfolding hook_before
  hook_before-globals w = ground arith

  pub hook_after-Safe : (w : World Call Globals) → Safe e hs n w → Safe e hs n (hook_after c e w).1
  unfolding hook_after
  hook_after-Safe w s = ground arith

  pub partition_move-globals :
      (base : ℕ) (h : Header) (w : World Call Globals)
      → (partition_move c base h e w).1.globals ≡ w.globals
  unfolding partition_move
  partition_move-globals base h w = ground arith

  pub note_addresses-Safe :
      (base : ℕ) (h : Header) (w : World Call Globals)
      → Safe e hs n w
      → Safe e hs n (note_addresses c base h e w).1
  unfolding note_addresses
  note_addresses-Safe base h w s = ground arith

  pub note_addresses-globals :
      (base : ℕ) (h : Header) (w : World Call Globals)
      → (note_addresses c base h e w).1.globals ≡ w.globals
  unfolding note_addresses
  note_addresses-globals base h w = ground arith

  pub move_partition-Safe :
      (base : ℕ) (h : Header) (w : World Call Globals)
      → w.globals.signed ≡ true
      → Safe e hs n w
      → Safe e hs n (move_partition c base h e w).1
  unfolding move_partition
  move_partition-Safe base h w t s = ground (arith, partition_move-Safe base h w t s)

  pub move_partition-globals :
      (base : ℕ) (h : Header) (w : World Call Globals)
      → (move_partition c base h e w).1.globals ≡ w.globals
  unfolding move_partition
  move_partition-globals base h w = ground (arith, partition_move-globals base h w)

  pub move_some-Safe :
      (base : ℕ) (h : Header) (w : World Call Globals)
      → w.globals.signed ≡ true
      → Safe e hs n w
      → Safe e hs n (move_some c base h e w).1
  unfolding move_some
  move_some-Safe base h w t s = ground (arith, move_partition-Safe base h w t s)

  pub move_some-globals :
      (base : ℕ) (h : Header) (w : World Call Globals)
      → (move_some c base h e w).1.globals ≡ w.globals
  unfolding move_some
  move_some-globals base h w = ground (arith, move_partition-globals base h w)

  pub move_or_locate-Safe :
      (base : ℕ) (h : Header) (w : World Call Globals)
      → w.globals.signed ≡ true
      → Safe e hs n w
      → Safe e hs n (move_or_locate c base h e w).1
  unfolding move_or_locate
  move_or_locate-Safe base h w t s =
      let w' = (note_addresses c base h e w).1 in
      ground (
        arith,
        move_partition-Safe base h w t s,
        note_addresses-Safe base h w s,
        note_addresses-globals base h w,
        move_some-Safe base h w',
      )

  pub move_or_locate-globals :
      (base : ℕ) (h : Header) (w : World Call Globals)
      → (move_or_locate c base h e w).1.globals ≡ w.globals
  unfolding move_or_locate
  move_or_locate-globals base h w =
      let w' = (note_addresses c base h e w).1 in
      ground (
        arith,
        move_partition-globals base h w,
        note_addresses-globals base h w,
        move_some-globals base h w',
      )

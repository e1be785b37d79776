-- ===== src/Fsbl/Load.antt =====
-- `LoadBootImage` of zynq-7000-tips-tricks/fsbl/image_mover.c.
pub mod Loop
pub mod Run
pub mod Returns
use Prim.Native.Nat.{bit_and, bit_xor}
use software_prototypes.Base.{
  ℕ, zero, suc, ◌+◌, ◌*◌, ◌%◌, Bool, true, false, not, ◌==◌, ltb, if◌then◌else◌, get_or, [],
}
use software_prototypes.Word.{u32_mod, u32_max, add32}
use software_prototypes.Machine.{
  Status, success, failure, pure, call, ask, tell, gets, modify, when, hung, ◌>>=◌, ◌>>◌,
}
use software_prototypes.Fsbl.Layout.{Layout}
use software_prototypes.Fsbl.System.{
  Config, Globals, version_1, version_2, later, in32, load32, devcfg_read, out32, memory,
  move_image, set_ppk, get_header_info_fail, rsa_support_not_enabled_fail, Fsbl, fallback, require,
  has, member,
}
use software_prototypes.Fsbl.Image.{get_partition_header_info, get_n_auth_image_header}
use software_prototypes.Fsbl.Partition.{Locals, Round, next, exit, load_partition}

module _ (c : Config) where
  open c use {layout}

  -- The start of the image: from BASEADDR_HOLDER on silicon 1.0, else by the multiboot register.
  unfoldable pub image_start_address : Fsbl ℕ
  image_start_address = do
    reboot ← ask (in32 c.reboot_status_reg)
    elim c.silicon_version [
      | version_1 ↦ do
        when (bit_and reboot c.fsbl_fail_mask == c.fsbl_fail_mask)
            (tell (out32 c.reboot_status_reg (bit_and reboot (bit_xor c.fsbl_fail_mask u32_max))))
        ask (load32 c.baseaddr_holder)
      | _ ↦ do
        multiboot ← ask (devcfg_read c.multiboot_addr_offset)
        pure ((bit_and multiboot c.mboot_reboot_offset_mask * c.golden_image_offset) % u32_mod)
    ]

  -- EfuseStatusRegValue. `failure` is the early `return XST_FAILURE`.
  unfoldable pub efuse_status : ℕ → Fsbl (Status × ℕ)
  efuse_status base =
      if not c.rsa_without_efuses
      then (do v ← ask (in32 c.efuse_status_reg); pure (success, v))
      else (do
        g ← gets (λ g. g)
        let ac = member (get_or g.partition_header 0 []) layout.ac_offset
        if ac == 0 then pure (success, 0) else (do
          s ← call (
              move_image (add32 base ((ac * 4) % u32_mod)) (memory c.rsa_ac_start)
                (add32 c.total_header_size c.rsa_signature_size))
          elim s [
            | failure ↦ pure (failure, 0)
            | success ↦ do
              modify λ g. record g { fsbl_length = c.rsa_ac_start }
              pure (success, c.efuse_rsa_enable_mask)
          ]))

  -- The RSA part, on silicon that has it.
  unfoldable pub rsa_setup : ℕ → Fsbl Status
  rsa_setup base = elim c.silicon_version [
    | later ↦ do
      (s, efuse) ← efuse_status base
      elim s [
        | failure ↦ pure failure
        | success ↦
            if has efuse c.efuse_rsa_enable_mask
            then if c.rsa_support
              then (do
                tell set_ppk
                require (get_n_auth_image_header c base) get_header_info_fail
                pure success)
              else fallback rsa_support_not_enabled_fail
            else pure success
      ]
    | _ ↦ pure success
  ]

  -- The end of a round: the next partition, or `break` and the `return` behind the loop.
  unfoldable pub after_round : (Locals → Fsbl ℕ) → Round → Fsbl ℕ
  after_round again (next loc) = again loc
  after_round again (exit loc) = pure loc.exec_address

  -- `while (PartitionNum < PartitionCount)`, on fuel.
  unfoldable pub load_loop : (fuel base num : ℕ) → Locals → Fsbl ℕ
  load_loop zero base num loc = hung
  load_loop (suc fuel) base num loc = do
    g ← gets (λ g. g)
    elim (ltb num g.partition_count) [
      | false ↦ pure loc.exec_address
      | true ↦ do r ← load_partition c base num loc; after_round (load_loop fuel base (suc num)) r
    ]

  -- PartitionNum at the start.
  abbrev pub first_partition : ℕ
  first_partition = if c.mmc_support then 0 else 1

  unfoldable pub load_partitions : ℕ → Fsbl ℕ
  load_partitions base = do
    g ← gets (λ g. g)
    load_loop (suc g.partition_count) base first_partition
        (record { exec_address = 0; exec_addr_flag = false })

  unfoldable pub after_setup : ℕ → Status → Fsbl ℕ
  after_setup base success = load_partitions base
  after_setup base failure = pure c.xst_failure

  unfoldable pub set_up : ℕ → Fsbl ℕ
  set_up base = do s ← rsa_setup base; after_setup base s

  unfoldable pub read_headers : ℕ → Fsbl (Unit {0})
  read_headers base = require (get_partition_header_info c base) get_header_info_fail

  unfoldable pub boot_from : ℕ → Fsbl ℕ
  boot_from base = do read_headers base; set_up base

  unfoldable pub load_boot_image : Fsbl ℕ
  load_boot_image = do
    modify λ g. record g { bitstream = false; application = false }
    base ← image_start_address
    boot_from base

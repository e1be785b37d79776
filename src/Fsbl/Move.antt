-- ===== src/Fsbl/Move.antt =====
-- `PartitionMove` and `DecryptPartition` of zynq-7000-tips-tricks/fsbl/image_mover.c.
use software_prototypes.Base.{ℕ, Bool, true, false, not, ◌&&◌, ◌||◌, if◌then◌else◌}
use software_prototypes.Word.{add32, shl32}
use software_prototypes.Machine.{Status, success, failure, pure, call, gets, ◌>>=◌}
use software_prototypes.Fsbl.Header.{Header}
use software_prototypes.Fsbl.System.{
  Config, Globals, memory, move_image, pcap_data_transfer, pcap_load_partition, Fsbl, member,
}

module _ (c : Config) where
  open c use {layout, linear_boot_device, flash_read_base_address, ddr_temp_start_addr}

  -- The address of the partition in the boot device.
  unfoldable pub source_addr : ℕ → Header → ℕ
  source_addr base h =
      let at = add32 base (shl32 (member h layout.partition_start) 2) in
      if linear_boot_device then add32 at flash_read_base_address else at

  -- The whole partition is moved, not the image alone.
  unfoldable pub moves_whole : Globals → Bool
  moves_whole g = g.signed || g.checksum

  unfoldable pub image_len : Globals → Header → ℕ
  unfolding moves_whole
  image_len g h =
      if moves_whole g then member h layout.partition_word_len else member h layout.image_word_len

  unfoldable pub data_len : Globals → Header → ℕ
  unfolding moves_whole
  data_len g h =
      if moves_whole g then member h layout.partition_word_len else member h layout.data_word_len

  -- SecureTransferFlag before the transfer.
  unfoldable pub secure_transfer : Globals → Bool
  unfolding moves_whole
  secure_transfer g = if g.ps && moves_whole g && g.encrypted then false else g.encrypted

  -- The copy by the CPU from a boot device that is not linear: the status and the new SourceAddr and
  -- LoadAddr.
  unfoldable pub move_by_cpu : ℕ → Header → Fsbl (Status × ℕ × ℕ)
  unfolding source_addr image_len
  move_by_cpu base h = do
    g ← gets (λ g. g)
    let source = source_addr base h
    let load = if g.pl then ddr_temp_start_addr else member h layout.load_addr
    if linear_boot_device then pure (success, source, member h layout.load_addr) else (do
      s ← call (move_image source (memory load) (shl32 (image_len g h) 2))
      pure (s, load, load))

  -- The condition of the transfer by PCAP.
  unfoldable pub needs_pcap : Globals → Bool
  unfolding moves_whole secure_transfer
  needs_pcap g =
      (linear_boot_device && g.pl && moves_whole g)
      || (linear_boot_device && g.ps)
      || (not linear_boot_device && g.ps && secure_transfer g)

  unfoldable pub move_by_pcap : ℕ → ℕ → Header → Fsbl (Status × ℕ)
  unfolding image_len data_len secure_transfer needs_pcap
  move_by_pcap source load h = do
    g ← gets (λ g. g)
    let load' = if g.pl then ddr_temp_start_addr else load
    let secure = if g.pl then false else secure_transfer g
    if needs_pcap g
        then (do
          s ← call (pcap_data_transfer source load' (image_len g h) (data_len g h) secure)
          pure (s, load'))
        else pure (success, source)

  unfoldable pub load_fabric : ℕ → Header → Fsbl Status
  unfolding moves_whole
  load_fabric source h = do
    g ← gets (λ g. g)
    if g.pl && not (moves_whole g)
        then call (
            pcap_load_partition source (member h layout.load_addr) (member h layout.image_word_len)
              (member h layout.data_word_len) g.encrypted)
        else pure success

  unfoldable pub partition_move : ℕ → Header → Fsbl Status
  unfolding move_by_cpu move_by_pcap load_fabric
  partition_move base h = do
    (s, source, load) ← move_by_cpu base h
    elim s [
      | failure ↦ pure failure
      | success ↦ do
        (t, source') ← move_by_pcap source load h
        elim t [ failure ↦ pure failure | success ↦ load_fabric source' h ]
    ]

  unfoldable pub decrypt_partition : ℕ → ℕ → ℕ → Fsbl Status
  decrypt_partition start data_length image_length =
      call (pcap_data_transfer start start image_length data_length true)

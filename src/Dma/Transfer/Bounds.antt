-- ===== src/Dma/Transfer/Bounds.antt =====
-- The index that `ioctl` takes from user space.
use software_prototypes.Base.{ℕ, ◌≡◌, ◌↔◌, ◌<◌, ◌≤◌, refl, get_or, ◌∷◌, length, length-set, arith}
use software_prototypes.Machine.{success, Env, World, ok, fault}
use software_prototypes.Dma.Shared.{
  Command, start_xfer, finish_xfer, xfer, show_buflen, other, buffer_count,
}
use software_prototypes.Dma.Transfer.{
  Channel, Call, copy_from_user, Kernel, start_transfer, wait_for_transfer, perform, ioctl,
}

-- Which commands read the tables.
abbrev pub UsesTables : Command → Type 0
UsesTables start_xfer = Unit
UsesTables finish_xfer = Unit
UsesTables xfer = Unit
UsesTables show_buflen = ¬ Unit {0}
UsesTables other = ¬ Unit {0}

module _ (k : Kernel) (e : Env Call) where
  pub start_transfer_iff :
      (w : World Call Channel)
      → ((start_transfer k e w).0 ≡ fault) ↔ (buffer_count ≤ w.globals.bdindex)
  unfolding start_transfer
  start_transfer_iff w = ground arith

  pub wait_for_transfer_iff :
      (w : World Call Channel)
      → ((wait_for_transfer k e w).0 ≡ fault) ↔ (buffer_count ≤ w.globals.bdindex)
  unfolding wait_for_transfer
  wait_for_transfer_iff w = ground arith

  pub start_transfer_ok :
      (w : World Call Channel) → w.globals.bdindex < buffer_count → (start_transfer k e w).0 ≡ ok tt
  unfolding start_transfer
  start_transfer_ok w h = ground arith

  pub wait_for_transfer_ok :
      (w : World Call Channel)
      → w.globals.bdindex < buffer_count
      → (wait_for_transfer k e w).0 ≡ ok tt
  unfolding wait_for_transfer
  wait_for_transfer_ok w h = ground arith

  -- A transfer leaves the index and the lengths of the tables.
  pub start_transfer_frame :
      (w : World Call Channel)
      → let ch' = (start_transfer k e w).1.globals in
        (ch'.bdindex ≡ w.globals.bdindex)
        × (ch'.buffers ≡ w.globals.buffers)
        × (length ch'.bds ≡ length w.globals.bds)
  unfolding start_transfer
  start_transfer_frame w = grind (arith, length-set)

  -- From the world in which the index is read, with the index that user space gave.
  abbrev pub index_read : World Call Channel → ℕ
  index_read w = get_or (e.words w.log copy_from_user) 0 0

  -- The world in which the command is performed.
  abbrev pub after_copy : World Call Channel → World Call Channel
  after_copy w = record w {
    log = copy_from_user ∷ w.log;
    globals = record w.globals { bdindex = index_read w };
  }

  pub perform_iff :
      (cmd : Command) (w : World Call Channel)
      → ((perform k cmd e w).0 ≡ fault) ↔ (UsesTables cmd × (buffer_count ≤ w.globals.bdindex))
  unfolding perform
  perform_iff start_xfer w = ground (arith, start_transfer_iff w)
  perform_iff finish_xfer w = ground (arith, wait_for_transfer_iff w)
  perform_iff xfer w = ground (
    arith,
    start_transfer_iff w,
    start_transfer_frame w,
    wait_for_transfer_iff ((start_transfer k e w).1),
  )
  perform_iff show_buflen w = ground arith
  perform_iff other w = ground arith

  -- An `ioctl` reads or writes outside of the tables of BUFFER_COUNT entries exactly when the index
  -- is copied from user space, the command is one that transfers, and the index is not below
  -- BUFFER_COUNT: the driver does not check it.
  pub ioctl_faults_iff :
      (cmd : Command) (w : World Call Channel)
      → ((ioctl k cmd e w).0 ≡ fault) ↔ (
          (e.status w.log copy_from_user ≡ success)
          × UsesTables cmd
          × (buffer_count ≤ index_read w))
  unfolding ioctl
  ioctl_faults_iff cmd w = ground (arith, perform_iff cmd (after_copy w))

  -- A command on a valid index returns.
  pub perform_returns :
      (cmd : Command) (w : World Call Channel)
      → w.globals.bdindex < buffer_count
      → (perform k cmd e w).0 ≡ ok tt
  unfolding perform
  perform_returns start_xfer w h = ground (arith, start_transfer_ok w)
  perform_returns finish_xfer w h = ground (arith, wait_for_transfer_ok w)
  perform_returns xfer w h = ground (
    arith,
    start_transfer_ok w,
    start_transfer_frame w,
    wait_for_transfer_ok ((start_transfer k e w).1),
  )
  perform_returns show_buflen w h = refl
  perform_returns other w h = refl

-- ===== src/Dma/Transfer/Outcome.antt =====
-- What the commands of `ioctl` do to the tables and ask of the DMA engine.
use software_prototypes.Base.{
  ℕ, ◌≡◌, ◌≢◌, ◌∙◌, refl, sym, ◌∷◌, ◌==◌, if◌then◌else◌, length, length-set, get_or-set_self,
  get_or-set_ne, arith, ◌<◌,
}
use software_prototypes.Machine.{success, Env, World, ok}
use software_prototypes.Dma.Shared.{
  busy, Command, start_xfer, finish_xfer, xfer, show_buflen, other, buffer_count,
}
use software_prototypes.Dma.Transfer.{
  Channel, Call, Kernel, copy_from_user, prep_slave_sg, set_callback, init_completion,
  dmaengine_submit, issue_pending, wait_for_completion, is_tx_complete, start_transfer, verdict,
  wait_for_transfer, perform, ioctl, bd_at, buffer_at, zero_rc,
}
use software_prototypes.Dma.Transfer.Bounds.{
  start_transfer_frame, start_transfer_ok, perform_returns, index_read, after_copy,
}

module _ (k : Kernel) where
  -- The verdict is not PROXY_BUSY.
  pub verdict-ne : (timeout status : ℕ) → verdict k timeout status ≢ busy
  unfolding verdict
  verdict-ne timeout status = ground arith

  module _ (e : Env Call) where
    -- A wait on entry i of the tables: the calls, and the channel that it leaves.
    pub wait_for_transfer_effect :
        (w : World Call Channel)
        → w.globals.bdindex < buffer_count
        → length w.globals.buffers ≡ buffer_count
        → let i = w.globals.bdindex in
          let w' = (wait_for_transfer k e w).1 in
          let log1 = wait_for_completion i 3000 ∷ w.log in
          let asked = is_tx_complete (bd_at w.globals i).cookie in
          (w'.log ≡ asked ∷ log1)
          × ((buffer_at w'.globals i).status
              ≡ verdict k (e.value w.log (wait_for_completion i 3000)) (e.value log1 asked))
          × ((buffer_at w'.globals i).length ≡ (buffer_at w.globals i).length)
          × (w'.globals.bds ≡ w.globals.bds)
    unfolding wait_for_transfer
    wait_for_transfer_effect w h l = grind (arith, length-set, get_or-set_self)

    pub wait_for_transfer_others :
        (w : World Call Channel) (j : ℕ)
        → j ≢ w.globals.bdindex
        → buffer_at ((wait_for_transfer k e w).1).globals j ≡ buffer_at w.globals j
    unfolding wait_for_transfer
    wait_for_transfer_others w j n = grind (arith, get_or-set_ne)

    -- A start on entry i hands the engine that entry's bus address and length, and nothing else.
    pub start_transfer_effect :
        (w : World Call Channel)
        → w.globals.bdindex < buffer_count
        → length w.globals.bds ≡ buffer_count
        → let i = w.globals.bdindex in
          let w' = (start_transfer k e w).1 in
          let prep =
            prep_slave_sg
              (bd_at w.globals i).dma_handle
              (buffer_at w.globals i).length
              w.globals.direction in
          let ready = init_completion i ∷ set_callback i ∷ prep ∷ w.log in
          let cookie = e.value ready dmaengine_submit in
          w'.log ≡ (
            if e.value w.log prep == 0
            then prep ∷ w.log
            else if k.submit_error cookie
            then dmaengine_submit ∷ ready
            else issue_pending ∷ dmaengine_submit ∷ ready)
    unfolding start_transfer
    start_transfer_effect w h l = grind (arith, get_or-set_self)

    -- The commands that wait for the end of a transfer.
    abbrev pub Waits : Command → Type 0
    Waits start_xfer = ¬ Unit {0}
    Waits finish_xfer = Unit
    Waits xfer = Unit
    Waits show_buflen = ¬ Unit {0}
    Waits other = ¬ Unit {0}

    pub wait_settles :
        (w : World Call Channel)
        → w.globals.bdindex < buffer_count
        → length w.globals.buffers ≡ buffer_count
        → let i = w.globals.bdindex in
          let w' = (wait_for_transfer k e w).1 in
          ((buffer_at w'.globals i).status ≢ busy)
          × ((buffer_at w'.globals i).length ≡ (buffer_at w.globals i).length)
    wait_settles w h l =
        let (_, s, n, _) = wait_for_transfer_effect w h l in ((λ b. verdict-ne _ _ (sym s ∙ b)), n)

    pub perform_settles :
        (cmd : Command) (w : World Call Channel)
        → Waits cmd
        → w.globals.bdindex < buffer_count
        → length w.globals.buffers ≡ buffer_count
        → let i = w.globals.bdindex in
          let w' = (perform k cmd e w).1 in
          ((buffer_at w'.globals i).status ≢ busy)
          × ((buffer_at w'.globals i).length ≡ (buffer_at w.globals i).length)
    unfolding perform
    perform_settles start_xfer w u h l = absurd (u tt)
    perform_settles finish_xfer w u h l = wait_settles w h l
    perform_settles xfer w u h l =
        let f = start_transfer_frame k e w in
        let started = (start_transfer k e w).1 in
        ground (arith, f, start_transfer_ok k e w, wait_settles started)
    perform_settles show_buflen w u h l = absurd (u tt)
    perform_settles other w u h l = absurd (u tt)

    perform_others :
        (cmd : Command) (w : World Call Channel) (j : ℕ)
        → w.globals.bdindex < buffer_count
        → j ≢ w.globals.bdindex
        → buffer_at ((perform k cmd e w).1).globals j ≡ buffer_at w.globals j
    unfolding perform
    perform_others start_xfer w j h n = ground (arith, start_transfer_frame k e w)
    perform_others finish_xfer w j h n = wait_for_transfer_others w j n
    perform_others xfer w j h n =
        let started = (start_transfer k e w).1 in
        ground (
          arith,
          start_transfer_ok k e w,
          start_transfer_frame k e w,
          wait_for_transfer_others started j,
        )
    perform_others show_buflen w j h n = refl
    perform_others other w j h n = refl

    pub ioctl_performs :
        (cmd : Command) (w : World Call Channel)
        → e.status w.log copy_from_user ≡ success
        → (perform k cmd e (after_copy k e w)).0 ≡ ok tt
        → ioctl k cmd e w ≡ (ok zero_rc, (perform k cmd e (after_copy k e w)).1)
    unfolding ioctl
    ioctl_performs cmd w s p = ground arith

    -- When user space asks to finish a transfer, or to start and finish one, with an index below
    -- BUFFER_COUNT that is copied successfully, on a channel with all its buffers: `ioctl` returns 0,
    -- the status of that buffer is not left at PROXY_BUSY, its length is kept, and every other
    -- buffer keeps its status and length.
    pub ioctl_settles :
        (cmd : Command) (w : World Call Channel)
        → Waits cmd
        → e.status w.log copy_from_user ≡ success
        → index_read k e w < buffer_count
        → length w.globals.buffers ≡ buffer_count
        → let i = index_read k e w in
          let (r, w') = ioctl k cmd e w in
          (r ≡ ok zero_rc)
          × ((buffer_at w'.globals i).status ≢ busy)
          × ((buffer_at w'.globals i).length ≡ (buffer_at w.globals i).length)
          × ((j : ℕ) → j ≢ i → buffer_at w'.globals j ≡ buffer_at w.globals j)
    ioctl_settles cmd w u s h l =
        let read = after_copy k e w in
        let (b, n) = perform_settles cmd read u h l in
        rw (ioctl_performs cmd w s (perform_returns k e cmd read h))
          (refl, b, n, λ j. perform_others cmd read j h)

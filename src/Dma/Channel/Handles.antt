-- ===== src/Dma/Channel/Handles.antt =====
-- The bus addresses of a channel's buffers.
use software_prototypes.Base.{
  ℕ, suc, zero, ◌≡◌, refl, sym, ap, ◌∙◌, ◌∷◌, Bool, ◌+◌, ◌*◌, ◌<◌, ◌≤◌, length, length-set,
  get_or-set_self, get_or-set_ne, arith,
}
use software_prototypes.Machine.{Env, World, ok}
use software_prototypes.Dma.Shared.{buffer_count, channel_buffer_size, buffer_size}
use software_prototypes.Dma.Transfer.{Direction, Channel, bd_at}
use software_prototypes.Dma.Channel.{
  SetupCall, request_chan, zero_code, cdevice_init, handles_loop, create_buffers, create_channel,
}

handles_loop_frame :
    (n : ℕ) (ch : Channel)
    → let ch' = handles_loop n ch in
      (ch'.buffer_phys_addr ≡ ch.buffer_phys_addr)
      × (ch'.buffers ≡ ch.buffers)
      × (length ch'.bds ≡ length ch.bds)
unfolding handles_loop
handles_loop_frame zero ch = (refl, refl, refl)
handles_loop_frame (suc n) ch = grind (arith, handles_loop_frame n, length-set)

-- The descriptors below the current one are kept.
handles_loop_kept :
    (n : ℕ) (ch : Channel) (i : ℕ) → i + n < buffer_count → bd_at (handles_loop n ch) i ≡ bd_at ch i
unfolding handles_loop
handles_loop_kept zero ch i h = refl
handles_loop_kept (suc n) ch i h = grind (arith, handles_loop_kept n, get_or-set_ne)

pub handles_loop_handle :
    (n : ℕ) (ch : Channel) (i : ℕ)
    → n ≤ buffer_count
    → length ch.bds ≡ buffer_count
    → buffer_count ≤ i + n
    → i < buffer_count
    → (bd_at (handles_loop n ch) i).dma_handle ≡ ch.buffer_phys_addr + channel_buffer_size * i
unfolding handles_loop
handles_loop_handle zero ch i h l m k = absurd (omega arith)
handles_loop_handle (suc n) ch i h l m k =
    grind (arith, handles_loop_handle n, handles_loop_kept n, get_or-set_self, length-set)

buffers_apart :
    (phys : ℕ) (handle : ℕ → ℕ)
    → ((i : ℕ) → i < buffer_count → handle i ≡ phys + channel_buffer_size * i)
    → (i : ℕ) → i < buffer_count
    → (handle i ≡ phys + channel_buffer_size * i)
      × (handle i + buffer_size ≤ phys + channel_buffer_size * buffer_count)
      × ((j : ℕ) → i < j → j < buffer_count → handle i + buffer_size ≤ handle j)
buffers_apart phys handle at i h =
    (at i h, omega (arith, at i h), λ j u v. omega (arith, at i h, at j v))

module _ (is_err : ℕ → Bool) (direction : Direction) (e : Env SetupCall) where
  create_buffers_at :
      (w : World SetupCall Channel)
      → length w.globals.bds ≡ buffer_count
      → (create_buffers is_err direction e w).0 ≡ ok zero_code
      → (i : ℕ) → i < buffer_count
      → let ch = ((create_buffers is_err direction e w).1).globals in
        (bd_at ch i).dma_handle ≡ ch.buffer_phys_addr + channel_buffer_size * i
  unfolding create_buffers
  create_buffers_at w l r i h =
      grind (arith, handles_loop_handle buffer_count, handles_loop_frame buffer_count)

  create_buffers_tables :
      (w : World SetupCall Channel)
      → length w.globals.bds ≡ buffer_count
      → (create_buffers is_err direction e w).0 ≡ ok zero_code
      → let ch = ((create_buffers is_err direction e w).1).globals in
        (ch.bdindex ≡ 0) × (length ch.buffers ≡ buffer_count) × (length ch.bds ≡ buffer_count)
  unfolding create_buffers
  create_buffers_tables w l r = grind (arith, handles_loop_frame buffer_count)

  cdevice_init_frame :
      (w : World SetupCall Channel) → ((cdevice_init is_err e w).1).globals.bds ≡ w.globals.bds
  unfolding cdevice_init
  cdevice_init_frame w = ground arith

  -- The world in which the character device is initialised.
  abbrev requested : ℕ → World SetupCall Channel → World SetupCall Channel
  requested channel w = record {
    log = request_chan ∷ w.log;
    globals = record w.globals { channel = channel; dma_channel = e.value w.log request_chan };
  }

  create_channel_reduces :
      (channel : ℕ) (w : World SetupCall Channel)
      → (create_channel is_err channel direction e w).0 ≡ ok zero_code
      → create_channel is_err channel direction e w
        ≡ create_buffers is_err direction e (cdevice_init is_err e (requested channel w)).1
  unfolding create_channel
  create_channel_reduces channel w r = ground arith

  -- Wherever `create_channel` succeeds on a table of BUFFER_COUNT descriptors, the descriptor
  -- of each buffer has the bus address of that buffer in the one allocation of BUFFER_COUNT buffers:
  -- its data lies inside the allocation, and ends before the data of every later buffer begins. The
  -- index is 0 and there are BUFFER_COUNT buffers.
  pub create_channel_handles :
      (channel : ℕ) (w : World SetupCall Channel)
      → length w.globals.bds ≡ buffer_count
      → (create_channel is_err channel direction e w).0 ≡ ok zero_code
      → let ch = ((create_channel is_err channel direction e w).1).globals in
        (ch.bdindex ≡ 0)
        × (length ch.buffers ≡ buffer_count)
        × (length ch.bds ≡ buffer_count)
        × ((i : ℕ)
            → i < buffer_count
            → ((bd_at ch i).dma_handle ≡ ch.buffer_phys_addr + channel_buffer_size * i)
              × ((bd_at ch i).dma_handle + buffer_size
                  ≤ ch.buffer_phys_addr + channel_buffer_size * buffer_count)
              × ((j : ℕ)
                  → i < j
                  → j < buffer_count
                  → (bd_at ch i).dma_handle + buffer_size ≤ (bd_at ch j).dma_handle))
  create_channel_handles channel w l r =
      let made = create_channel_reduces channel w r in
      let set_up = (cdevice_init is_err e (requested channel w)).1 in
      let kept = cdevice_init_frame (requested channel w) ∙ refl in
      let size = ap length kept ∙ l in
      let done = sym (ap (λ p. p.0) made) ∙ r in
      let (x, y, z) = create_buffers_tables set_up size done in
      rw made (x, y, z, λ i h. buffers_apart _ _ (create_buffers_at set_up size done) i h)

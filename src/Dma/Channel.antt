-- ===== src/Dma/Channel.antt =====
-- The set-up of a channel in linux-user-space-dma/Software/Kernel/dma-proxy.c: `cdevice_init`,
-- `cdevice_exit` and `create_channel`. Pointers are numbers with 0 for NULL; IS_ERR is of the kernel.
pub mod Handles
pub mod Codes
use software_prototypes.Base.{
  ℕ, suc, zero, Bool, true, false, ◌||◌, not, List, [], ◌∷◌, ◌==◌, ◌+◌, ◌*◌, ◌-◌, if◌then◌else◌,
  replicate,
}
use software_prototypes.Machine.{Act, pure, ask, tell, gets, modify, ◌>>=◌, ◌>>◌}
use software_prototypes.Dma.Shared.{buffer_count, channel_buffer_size}
use software_prototypes.Dma.Transfer.{Direction, Channel, bd_at, set_bd, blank_buffer}

pub data SetupCall : Type 0 where
  request_chan cdev_init : SetupCall
  -- on the character device and the device of a channel
  cdev_add device_create cdev_del device_destroy : (channel : ℕ) → SetupCall
  -- of `dma_proxy_probe` and `dma_proxy_remove`, which use the same kernel
  kmalloc_proxy count_names kmalloc_names read_names kmalloc_channels : SetupCall
  class_create class_destroy alloc_chrdev_region unregister_chrdev_region : SetupCall
  -- on a DMA channel, by its pointer
  terminate_all release_channel : (dma_channel : ℕ) → SetupCall
  -- dmam_alloc_coherent of this size: its table, and the bus address that it writes
  alloc_coherent alloc_coherent_phys : ℕ → SetupCall

abbrev pub Setup : Type 0 → Type 0
Setup A = Act SetupCall Channel A

-- What the functions return: 0, the error codes that they name, the sign each has in the code, or
-- the code of a callee.
pub data Code : Type 0 where
  zero_code minus_enodev minus_enomem plus_enomem : Code
  callee : ℕ → Code

-- The loop over the buffer descriptors, the last n of them to be done.
unfoldable pub handles_loop : ℕ → Channel → Channel
handles_loop zero ch = ch
handles_loop (suc n) ch =
    let bd = buffer_count - suc n in
    let handle = ch.buffer_phys_addr + channel_buffer_size * bd in
    handles_loop n (set_bd bd (record (bd_at ch bd) { dma_handle = handle }) ch)

module _ (is_err : ℕ → Bool) where
  -- IS_ERR_OR_NULL
  unfoldable pub is_err_or_null : ℕ → Bool
  is_err_or_null p = (p == 0) || is_err p

  unfoldable pub cdevice_init : Setup Code
  unfolding is_err_or_null
  cdevice_init = do
    tell cdev_init
    channel ← gets Channel.channel
    rc ← ask (cdev_add channel)
    if rc == 0
        then (do
          device ← ask (device_create channel)
          modify λ ch. record ch { proxy_device = device }
          if is_err_or_null device
              then (do
                tell (cdev_del channel)
                pure (if device == 0 then plus_enomem else callee device))
              else pure zero_code)
        else pure (callee rc)

  unfoldable pub cdevice_exit : Setup (Unit {0})
  cdevice_exit = do
    device ← gets Channel.proxy_device
    channel ← gets Channel.channel
    if device == 0 then pure tt else (do tell (device_destroy channel); tell (cdev_del channel))

  -- From the allocation of the buffers on.
  unfoldable pub create_buffers : Direction → Setup Code
  unfolding is_err_or_null
  create_buffers direction = do
    modify λ ch. record ch { direction = direction }
    table ← ask (alloc_coherent (channel_buffer_size * buffer_count))
    phys ← ask (alloc_coherent_phys (channel_buffer_size * buffer_count))
    if is_err_or_null table then pure (if table == 0 then minus_enomem else callee table) else (do
      modify
          λ ch. record ch { buffers = replicate buffer_count blank_buffer; buffer_phys_addr = phys }
      modify (handles_loop buffer_count)
      modify λ ch. record ch { bdindex = 0 }
      pure zero_code)

  unfoldable pub create_channel : (channel : ℕ) → Direction → Setup Code
  create_channel channel direction = do
    modify λ ch. record ch { channel = channel }
    chan ← ask request_chan
    modify λ ch. record ch { dma_channel = chan }
    if is_err_or_null chan then pure (if chan == 0 then minus_enodev else callee chan) else (do
      rc ← cdevice_init
      elim rc [ zero_code ↦ create_buffers direction | code ↦ pure code ])

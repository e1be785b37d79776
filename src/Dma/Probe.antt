-- ===== src/Dma/Probe.antt =====
-- `dma_proxy_probe` and `dma_proxy_remove` of linux-user-space-dma/Software/Kernel/dma-proxy.c, without
-- the internal test. The names of the channels are those of the device tree; the memory that the
-- kernel allocates is not cleared, so the channels are given as they are found.
pub mod Resources
pub mod Create
pub mod Remove
pub mod Taken
pub mod Holding
pub mod Balance
pub mod Leak
use software_prototypes.Base.{
  ℕ, suc, zero, Bool, true, false, ◌&&◌, ◌||◌, not, List, [], ◌∷◌, ◌==◌, ltb, ◌+◌, ◌-◌, ◌*◌, ◌^◌,
  if◌then◌else◌, get_or, set,
}
use software_prototypes.Machine.{Env, World, Act, pure, ask, tell, gets, modify, when, ◌>>=◌, ◌>>◌}
use software_prototypes.Dma.Shared.{buffer_count}
use software_prototypes.Dma.Transfer.{Direction, mem_to_dev, dev_to_mem, Channel}
use software_prototypes.Dma.Channel.{
  SetupCall, kmalloc_proxy, count_names, kmalloc_names, read_names, kmalloc_channels, class_create,
  class_destroy, alloc_chrdev_region, unregister_chrdev_region, terminate_all, release_channel,
  Code, zero_code, minus_enomem, callee, is_err_or_null, cdevice_exit, create_channel,
}

-- struct dma_proxy: the channels, their number, and the class.
pub record Proxy : Type 0 where
  pub channels : List Channel
  pub channel_count : ℕ
  pub class : ℕ

abbrev pub Driver : Type 0 → Type 0
Driver A = Act SetupCall Proxy A

abbrev pub blank_channel : Channel
blank_channel = record {
  buffers = [];
  buffer_phys_addr = 0;
  bds = [];
  direction = mem_to_dev;
  bdindex = 0;
  channel = 0;
  proxy_device = 0;
  dma_channel = 0;
}

abbrev pub channel_at : Proxy → ℕ → Channel
channel_at p i = get_or p.channels i blank_channel

-- A function of one channel, on the channel of an index.
abbrev pub on_channel : {A : Type 0} → ℕ → Act SetupCall Channel A → Driver A
on_channel i m e w =
    let (r, w') = m e (record { log = w.log; globals = channel_at w.globals i }) in
    (
      r,
      record {
        log = w'.log;
        globals = record w.globals { channels = set w.globals.channels i w'.globals };
      },
    )

-- strstr(name, "rx") != NULL
unfoldable pub has_rx : List ℕ → Bool
has_rx [] = false
has_rx (c ∷ []) = false
has_rx (c ∷ d ∷ s) = (c == b'r' && d == b'x') || has_rx (d ∷ s)

abbrev pub direction_of : List ℕ → Direction
direction_of name = if has_rx name then dev_to_mem else mem_to_dev

-- The test of an `int` for being above 0, on its bit pattern.
abbrev pub is_positive : ℕ → Bool
is_positive n = ltb 0 n && ltb n (2 ^ 31)

module _ (is_err : ℕ → Bool) where
  -- The code for a pointer that is an error or NULL.
  abbrev pub null_code : ℕ → Code
  null_code p = if p == 0 then minus_enomem else callee p

  -- The loop over the channels, with the channels from this one on left.
  unfoldable pub create_channels : (channel : ℕ) → List (List ℕ) → Driver Code
  create_channels channel [] = pure zero_code
  create_channels channel (name ∷ names) = do
    let rest = create_channels (suc channel) names
    rc ← on_channel channel (create_channel is_err channel (direction_of name))
    elim rc [ zero_code ↦ rest | code ↦ pure code ]

  -- From the allocation of the region of device numbers on.
  unfoldable pub probe_region : List (List ℕ) → Driver Code
  probe_region names = do
    rc ← ask alloc_chrdev_region
    if rc == 0 then create_channels 0 names else pure (callee rc)

  unfoldable pub probe_class : List (List ℕ) → Driver Code
  unfolding is_err_or_null
  probe_class names = do
    class ← ask class_create
    modify λ p. record p { class = class }
    if is_err_or_null is_err class then pure (null_code class) else probe_region names

  unfoldable pub probe_channels : List (List ℕ) → Driver Code
  unfolding is_err_or_null
  probe_channels names = do
    channels ← ask kmalloc_channels
    if is_err_or_null is_err channels then pure (null_code channels) else probe_class names

  -- A negative code of the read of the names, as a bit pattern, is returned.
  unfoldable pub probe_names : List (List ℕ) → Driver Code
  unfolding is_err_or_null
  probe_names names = do
    table ← ask kmalloc_names
    if is_err_or_null is_err table then pure (null_code table) else (do
      rc ← ask read_names
      if ltb rc (2 ^ 31) then probe_channels names else pure (callee rc))

  unfoldable pub dma_proxy_probe : List (List ℕ) → Driver Code
  unfolding is_err_or_null
  dma_proxy_probe names = do
    proxy ← ask kmalloc_proxy
    if is_err_or_null is_err proxy then pure (null_code proxy) else (do
      count ← ask count_names
      modify λ p. record p { channel_count = count }
      if is_positive count then probe_names names else pure zero_code)

  -- The loops of `dma_proxy_remove`, with so many channels from this one on left.
  unfoldable pub exit_devices : (left channel : ℕ) → Driver (Unit {0})
  exit_devices zero channel = pure tt
  exit_devices (suc n) channel = do
    let rest = exit_devices n (suc channel)
    p ← gets (λ p. p)
    when (not ((channel_at p channel).proxy_device == 0)) (on_channel channel (cdevice_exit is_err))
    rest

  unfoldable pub release_channels : (left channel : ℕ) → Driver (Unit {0})
  release_channels zero channel = pure tt
  release_channels (suc n) channel = do
    let rest = release_channels n (suc channel)
    p ← gets (λ p. p)
    let dma_channel = (channel_at p channel).dma_channel
    when (not (dma_channel == 0))
        (do tell (terminate_all dma_channel); tell (release_channel dma_channel))
    rest

  -- The number of turns of a loop up to an `int`.
  abbrev pub turns : ℕ → ℕ
  turns count = if is_positive count then count else 0

  unfoldable pub dma_proxy_remove : Driver (Unit {0})
  dma_proxy_remove = do
    p ← gets (λ p. p)
    exit_devices (turns p.channel_count) 0
    release_channels (turns p.channel_count) 0
    tell class_destroy
    tell unregister_chrdev_region

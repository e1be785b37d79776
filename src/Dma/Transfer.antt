-- ===== src/Dma/Transfer.antt =====
-- The transfers of linux-user-space-dma/Software/Kernel/dma-proxy.c: `start_transfer`,
-- `wait_for_transfer` and `ioctl` on the channel of an open file. Calls of the kernel and of its DMA
-- engine are answered by the environment.
pub mod Outcome
pub mod Bounds
use software_prototypes.Base.{
  ℕ, Bool, true, false, List, [], ◌∷◌, ◌==◌, ltb, if◌then◌else◌, get_or, set, ◌<◌,
}
use software_prototypes.Machine.{
  Status, success, failure, Act, pure, faulted, ask, tell, fetch, gets, modify, ◌>>=◌, ◌>>◌,
}
use software_prototypes.Dma.Shared.{
  ProxyStatus, no_error, busy, timed_out, error, Command, start_xfer, finish_xfer, xfer,
  show_buflen, other, ChannelBuffer, buffer_count,
}

-- enum dma_transfer_direction
pub data Direction : Type 0 where
  mem_to_dev dev_to_mem : Direction

-- struct proxy_bd: the cookie, the bus address of the data, and the scatter gather entry.
pub record ProxyBd : Type 0 where
  pub cookie : ℕ
  pub dma_handle : ℕ
  pub sg_address : ℕ
  pub sg_length : ℕ

-- struct dma_proxy_channel. `bdindex` is the bit pattern of an `int`, so a negative one is large.
pub record Channel : Type 0 where
  pub buffers : List ChannelBuffer
  pub buffer_phys_addr : ℕ
  pub bds : List ProxyBd
  pub direction : Direction
  pub bdindex : ℕ
  pub channel : ℕ
  pub proxy_device : ℕ
  pub dma_channel : ℕ

-- What the kernel headers define: which cookies are errors, and the value of DMA_COMPLETE.
pub record Kernel : Type 0 where
  pub submit_error : ℕ → Bool
  pub dma_complete : ℕ

pub data Call : Type 0 where
  copy_from_user : Call
  -- device_prep_slave_sg: the entry's address and length, and the direction
  prep_slave_sg : ℕ → ℕ → Direction → Call
  -- the descriptor's callback is to complete the entry of this index
  set_callback : ℕ → Call
  init_completion : ℕ → Call
  dmaengine_submit issue_pending : Call
  -- wait_for_completion_timeout: the index and the milliseconds; then the cookie that is asked for
  wait_for_completion : ℕ → ℕ → Call
  is_tx_complete : ℕ → Call

abbrev pub Driver : Type 0 → Type 0
Driver A = Act Call Channel A

-- What `ioctl` returns: 0 or -EINVAL.
pub data Rc : Type 0 where
  zero_rc einval : Rc

abbrev pub blank_bd : ProxyBd
blank_bd = record { cookie = 0; dma_handle = 0; sg_address = 0; sg_length = 0 }

abbrev pub blank_buffer : ChannelBuffer
blank_buffer = record { status = no_error; length = 0 }

abbrev pub bd_at : Channel → ℕ → ProxyBd
bd_at ch i = get_or ch.bds i blank_bd

abbrev pub buffer_at : Channel → ℕ → ChannelBuffer
buffer_at ch i = get_or ch.buffers i blank_buffer

abbrev pub set_bd : ℕ → ProxyBd → Channel → Channel
set_bd i b ch = record ch { bds = set ch.bds i b }

abbrev pub set_status : ℕ → ProxyStatus → Channel → Channel
set_status i s ch = record ch {
  buffers = set ch.buffers i (record (buffer_at ch i) { status = s });
}

module _ (k : Kernel) where
  -- From `dmaengine_submit` on.
  unfoldable pub submit : ℕ → Driver (Unit {0})
  submit i = do
    tell (set_callback i)
    tell (init_completion i)
    cookie ← ask dmaengine_submit
    modify λ ch. set_bd i (record (bd_at ch i) { cookie = cookie }) ch
    if k.submit_error cookie then pure tt else tell issue_pending

  unfoldable pub start_at : ℕ → Driver (Unit {0})
  unfolding submit
  start_at i = do
    modify λ ch.
        set_bd i
          (record (bd_at ch i) {
            sg_address = (bd_at ch i).dma_handle;
            sg_length = (buffer_at ch i).length;
          })
          ch
    ch ← gets (λ ch. ch)
    desc ← ask (prep_slave_sg (bd_at ch i).sg_address (bd_at ch i).sg_length ch.direction)
    if desc == 0 then pure tt else submit i

  -- An index outside of the tables of BUFFER_COUNT entries is undefined behaviour.
  unfoldable pub start_transfer : Driver (Unit {0})
  unfolding start_at
  start_transfer = do i ← gets Channel.bdindex; if ltb i buffer_count then start_at i else faulted

  -- The status that the wait and the engine's answer give.
  unfoldable pub verdict : (timeout status : ℕ) → ProxyStatus
  verdict timeout status =
      if timeout == 0 then timed_out else if status == k.dma_complete then no_error else error

  unfoldable pub wait_at : ℕ → Driver (Unit {0})
  unfolding verdict
  wait_at i = do
    modify (set_status i busy)
    timeout ← ask (wait_for_completion i 3000)
    ch ← gets (λ ch. ch)
    status ← ask (is_tx_complete (bd_at ch i).cookie)
    modify (set_status i (verdict timeout status))

  unfoldable pub wait_for_transfer : Driver (Unit {0})
  unfolding wait_at
  wait_for_transfer = do i ← gets Channel.bdindex; if ltb i buffer_count then wait_at i else faulted

  unfoldable pub perform : Command → Driver (Unit {0})
  unfolding start_transfer wait_for_transfer
  perform start_xfer = start_transfer
  perform finish_xfer = wait_for_transfer
  perform xfer = start_transfer >> wait_for_transfer
  perform show_buflen = pure tt
  perform other = pure tt

  unfoldable pub ioctl : Command → Driver Rc
  unfolding perform
  ioctl cmd = do
    (s, ws) ← fetch copy_from_user
    modify λ ch. record ch { bdindex = get_or ws 0 0 }
    elim s [ failure ↦ pure einval | success ↦ do perform cmd; pure zero_rc ]

-- ===== src/Dma/Shared.antt =====
-- The interface of linux-user-space-dma/Software/Common/dma-proxy.h.
use software_prototypes.Base.{ℕ, ◌+◌, ◌*◌}

-- BUFFER_SIZE, BUFFER_COUNT, TX_BUFFER_COUNT, RX_BUFFER_COUNT and BUFFER_INCREMENT
abbrev pub buffer_size : ℕ
buffer_size = 128 * 1024

abbrev pub buffer_count : ℕ
buffer_count = 32

abbrev pub tx_buffer_count : ℕ
tx_buffer_count = 1

abbrev pub rx_buffer_count : ℕ
rx_buffer_count = 32

abbrev pub buffer_increment : ℕ
buffer_increment = 1

-- sizeof(struct channel_buffer): the data, and four words behind it.
abbrev pub channel_buffer_size : ℕ
channel_buffer_size = buffer_size + 4 * 4

-- enum proxy_status
pub data ProxyStatus : Type 0 where
  no_error busy timed_out error : ProxyStatus

-- The commands of `ioctl`, and any other number.
pub data Command : Type 0 where
  start_xfer finish_xfer xfer show_buflen other : Command

-- struct channel_buffer, without its data
pub record ChannelBuffer : Type 0 where
  pub status : ProxyStatus
  pub length : ℕ

-- ===== src/Dma/Application.antt =====
-- `main` of linux-user-space-dma/Software/User/dma-proxy-test.c, with `setup_threads`: its arguments, the
-- channels that it opens and maps, and the threads that it starts and waits for. The threads
-- themselves are those of Dma/Threads. Times and throughput, which are only printed, are left out.
pub mod Sizes
pub mod Channels
mod Tests
use software_prototypes.Base.{
  ℕ, suc, zero, Bool, true, false, ◌&&◌, ◌||◌, List, [], ◌∷◌, ◌==◌, ltb, ◌+◌, ◌-◌, ◌*◌, ◌%◌, ◌^◌,
  if◌then◌else◌,
}
use software_prototypes.Machine.{
  Status, success, failure, Act, pure, ask, tell, modify, when, ◌>>=◌, ◌>>◌,
}
use software_prototypes.Dma.Shared.{
  buffer_size, channel_buffer_size, tx_buffer_count, rx_buffer_count,
}

-- TX_CHANNEL_COUNT and RX_CHANNEL_COUNT
abbrev pub tx_channel_count : ℕ
tx_channel_count = 1

abbrev pub rx_channel_count : ℕ
rx_channel_count = 1

-- A channel of `tx_channels`, or of `rx_channels`.
pub data Side : Type 0 where
  tx rx : Side

pub data SystemCall : Type 0 where
  -- atoi of an argument of the program
  atoi : (argument : ℕ) → SystemCall
  open_device : Side → (channel : ℕ) → SystemCall
  -- with the number of bytes
  mmap munmap : Side → (channel bytes : ℕ) → SystemCall
  create_thread join_thread close_device : Side → (channel : ℕ) → SystemCall

-- The globals that the threads read, as bit patterns of `int`.
pub record Settings : Type 0 where
  pub num_transfers : ℕ
  pub test_size : ℕ
  pub verify : ℕ

abbrev pub Program : Type 0 → Type 0
Program A = Act SystemCall Settings A

-- The pointer MAP_FAILED, on 64 bits.
abbrev pub map_failure : ℕ
map_failure = 2 ^ 64 - 1

-- A comparison with `>` of an `int`, given by its bit pattern, and a constant.
abbrev pub int_above : ℕ → ℕ → Bool
int_above n constant = ltb constant n && ltb n (2 ^ 31)

-- The size of a transfer: the KB of the argument in bytes, modulo 2^32, and cut off at the buffers'
-- size by a signed comparison.
abbrev pub limit_size : (kb : ℕ) → ℕ
limit_size kb =
    if int_above (kb * 1024 % 2 ^ 32) buffer_size then buffer_size else kb * 1024 % 2 ^ 32

unfoldable pub read_arguments : (argc : ℕ) → Program (Unit {0})
read_arguments argc = do
  num ← ask (atoi 1)
  kb ← ask (atoi 2)
  modify λ s. record s { num_transfers = num; test_size = limit_size kb }
  when (argc == 4) (do verify ← ask (atoi 3); modify λ s. record s { verify = verify })

abbrev pub buffers_of : Side → ℕ
buffers_of tx = tx_buffer_count
buffers_of rx = rx_buffer_count

-- The loops that open and map the channels of a side, with so many left from this one on.
unfoldable pub open_channels : Side → (left channel : ℕ) → Program Status
open_channels side zero channel = pure success
open_channels side (suc n) channel = do
  let rest = open_channels side n (suc channel)
  fd ← ask (open_device side channel)
  if int_above fd 0
      then (do
        pointer ← ask (mmap side channel (channel_buffer_size * buffers_of side))
        if pointer == map_failure then pure failure else rest)
      else pure failure

unfoldable pub create_threads : Side → (left channel : ℕ) → Program (Unit {0})
create_threads side zero channel = pure tt
create_threads side (suc n) channel = do
  tell (create_thread side channel)
  create_threads side n (suc channel)

unfoldable pub setup_threads : Program (Unit {0})
setup_threads = do create_threads rx rx_channel_count 0; create_threads tx tx_channel_count 0

unfoldable pub join_rx : (left channel : ℕ) → Program (Unit {0})
join_rx zero channel = pure tt
join_rx (suc n) channel = do tell (join_thread rx channel); join_rx n (suc channel)

-- The clean-up loops.
unfoldable pub clean_tx : (left channel : ℕ) → Program (Unit {0})
clean_tx zero channel = pure tt
clean_tx (suc n) channel = do
  tell (join_thread tx channel)
  tell (munmap tx channel channel_buffer_size)
  tell (close_device tx channel)
  clean_tx n (suc channel)

unfoldable pub clean_rx : (left channel : ℕ) → Program (Unit {0})
clean_rx zero channel = pure tt
clean_rx (suc n) channel = do
  tell (munmap rx channel channel_buffer_size)
  tell (close_device rx channel)
  clean_rx n (suc channel)

-- From the start of the threads on.
unfoldable pub transfer : Program Status
transfer = do
  setup_threads
  join_rx rx_channel_count 0
  clean_tx tx_channel_count 0
  clean_rx rx_channel_count 0
  pure success

-- A failure is an `exit`.
unfoldable pub main : (argc : ℕ) → Program Status
main argc =
    if argc == 3 || argc == 4
    then (do
      read_arguments argc
      s ← open_channels tx tx_channel_count 0
      elim s [
        | failure ↦ pure failure
        | success ↦ do
          t ← open_channels rx rx_channel_count 0
          elim t [ failure ↦ pure failure | success ↦ transfer ]
      ])
    else pure failure

-- ===== src/Dma/Threads.antt =====
-- The threads of linux-user-space-dma/Software/User/dma-proxy-test.c, which keep the channel buffers
-- of the DMA proxy busy: `tx_thread` and `rx_thread`. The `ioctl` calls are answered by the environment,
-- a finished transfer with a status of PROXY_NO_ERROR or another one. A negative number of transfers
-- acts as 0 does. The comparison of the received data, which only prints, is left out, and the
-- number of transfers is fixed for `rx_thread`; Dma/Loopback runs both threads on one number.
pub mod Receive
pub mod Transmit
pub mod Driver
use software_prototypes.Base.{
  ℕ, suc, zero, Bool, true, false, not, ◌&&◌, List, [], ◌∷◌, ◌==◌, ltb, leb, ◌+◌, ◌*◌, ◌-◌, ◌/◌,
  ◌%◌, if◌then◌else◌,
}
use software_prototypes.Machine.{
  Status, success, failure, Act, pure, stopped, hung, call, ask, tell, gets, modify, when, ◌>>=◌,
  ◌>>◌,
}
use software_prototypes.Dma.Shared.{buffer_increment, tx_buffer_count, rx_buffer_count}

-- What a thread does to a buffer, and its read of the volatile `stop`, 0 or not.
pub data ThreadCall : Type 0 where
  set_length start finish : (buffer_id : ℕ) → ThreadCall
  -- the first word, or all words, of a buffer are filled counting from this number
  fill_first fill : (buffer_id from : ℕ) → ThreadCall
  read_stop : ThreadCall

-- The global num_transfers.
abbrev pub Thread : Type 0 → Type 0
Thread A = Act ThreadCall ℕ A

-- The first loop of `rx_thread`, with at most this many buffers left: it returns the number of
-- transfers in progress.
unfoldable pub rx_start_loop : (left buffer_id in_progress_count : ℕ) → Thread ℕ
rx_start_loop zero buffer_id in_progress_count = pure in_progress_count
rx_start_loop (suc n) buffer_id in_progress_count = do
  let rest = rx_start_loop n (buffer_id + buffer_increment) (suc in_progress_count)
  tell (set_length buffer_id)
  tell (start buffer_id)
  num_transfers ← gets (λ n. n)
  if leb num_transfers (suc in_progress_count) then pure (suc in_progress_count) else rest

-- `buffer_id` of the next turn of the second loop.
unfoldable pub rx_next : ℕ → ℕ
rx_next buffer_id = (buffer_id + buffer_increment) % rx_buffer_count

-- The restart of a completed buffer, unless the transfers in progress complete the number: the
-- number of transfers in progress.
unfoldable pub rx_restart : (buffer_id in_progress_count rx_counter : ℕ) → Thread ℕ
rx_restart buffer_id in_progress_count rx_counter = do
  num_transfers ← gets (λ n. n)
  if leb num_transfers (rx_counter + in_progress_count)
      then pure in_progress_count
      else (do tell (start buffer_id); pure (suc in_progress_count))

-- The second loop, on fuel.
unfoldable pub rx_loop : (fuel buffer_id in_progress_count rx_counter : ℕ) → Thread (Unit {0})
rx_loop zero buffer_id in_progress_count rx_counter = hung
rx_loop (suc n) buffer_id in_progress_count rx_counter = do
  s ← call (finish buffer_id)
  elim s [
    | failure ↦ stopped
    | success ↦ do
      num_transfers ← gets (λ n. n)
      if leb num_transfers (suc rx_counter) then pure tt else (do
        p ← rx_restart buffer_id (in_progress_count - 1) (suc rx_counter)
        rx_loop n (rx_next buffer_id) p (suc rx_counter))
  ]

unfoldable pub rx_thread : (fuel : ℕ) → Thread (Unit {0})
rx_thread fuel = do
  in_progress_count ← rx_start_loop (rx_buffer_count / buffer_increment) 0 0
  rx_loop fuel 0 in_progress_count 0

-- The verified words are filled only when the program's argument `verify` is not 0.
module _ (verify : Bool) where
  unfoldable pub tx_start_loop : (left buffer_id in_progress_count : ℕ) → Thread ℕ
  tx_start_loop zero buffer_id in_progress_count = pure in_progress_count
  tx_start_loop (suc n) buffer_id in_progress_count = do
    let rest = tx_start_loop n (buffer_id + buffer_increment) (suc in_progress_count)
    tell (set_length buffer_id)
    when verify (tell (fill_first buffer_id in_progress_count))
    tell (start buffer_id)
    num_transfers ← gets (λ n. n)
    if leb num_transfers (suc in_progress_count) then pure (suc in_progress_count) else rest

  -- An early stop: the number of transfers becomes what the receive buffers still need. It returns
  -- `stop_in_progress`.
  unfoldable pub tx_check_stop : (counter : ℕ) (stop_in_progress : Bool) → Thread Bool
  tx_check_stop counter stop_in_progress = do
    stop ← ask read_stop
    if not (stop == 0) && not stop_in_progress
        then (do modify (λ n. counter + rx_buffer_count); pure true)
        else pure stop_in_progress

  unfoldable pub tx_next : ℕ → ℕ
  tx_next buffer_id = (buffer_id + buffer_increment) % tx_buffer_count

  unfoldable pub tx_restart : (buffer_id in_progress_count counter : ℕ) → Thread ℕ
  tx_restart buffer_id in_progress_count counter = do
    num_transfers ← gets (λ n. n)
    if leb num_transfers (counter + in_progress_count) then pure in_progress_count else (do
      when verify (tell (fill buffer_id ((tx_buffer_count / buffer_increment - 1) + counter)))
      tell (start buffer_id)
      pure (suc in_progress_count))

  -- The second loop, on fuel. A transfer with another status than PROXY_NO_ERROR is only reported.
  unfoldable pub tx_loop :
      (fuel buffer_id in_progress_count counter : ℕ) (stop_in_progress : Bool) → Thread (Unit {0})
  tx_loop zero buffer_id in_progress_count counter stop_in_progress = hung
  tx_loop (suc n) buffer_id in_progress_count counter stop_in_progress = do
    tell (finish buffer_id)
    num_transfers ← gets (λ n. n)
    if leb num_transfers (suc counter) then pure tt else (do
      stopping ← tx_check_stop (suc counter) stop_in_progress
      p ← tx_restart buffer_id (in_progress_count - 1) (suc counter)
      tx_loop n (tx_next buffer_id) p (suc counter) stopping)

  unfoldable pub tx_thread : (fuel : ℕ) → Thread (Unit {0})
  tx_thread fuel = do
    in_progress_count ← tx_start_loop (tx_buffer_count / buffer_increment) 0 0
    tx_loop fuel 0 in_progress_count 0 false

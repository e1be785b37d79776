-- ===== src/Clock.antt =====
-- The programming of the Si5381 clock generator, zcu670-si5381/Si5381A-programming.c, through the I2C
-- driver. A failed send is taken to leave the device as it was.
pub mod Device
pub mod Setup
pub mod Program
pub mod Returns
mod Tests
use software_prototypes.Base.{
  ℕ, suc, zero, Bool, true, false, not, ◌||◌, ◌&&◌, List, [], ◌∷◌, ◌==◌, ltb, ◌+◌, ◌*◌, ◌-◌, ◌/◌,
  ◌%◌, Option, none, some, if◌then◌else◌, get_or, length, take, drop,
}
use software_prototypes.Machine.{
  Status, success, failure, Act, pure, faulted, hung, call, ask, tell, fetch, gets, modify, when,
  ◌>>=◌, ◌>>◌,
}

-- An entry of the table that ClockBuilder Pro generates.
pub record Register : Type 0 where
  pub address : ℕ
  pub value : ℕ

pub data I2cCall : Type 0 where
  lookup_config cfg_initialize bus_is_busy : I2cCall
  set_sclk usleep : ℕ → I2cCall
  -- XIicPs_MasterSendPolled, and XIicPs_MasterRecvPolled of so many bytes
  send : (slave_addr : ℕ) (bytes : List ℕ) → I2cCall
  recv : (slave_addr len : ℕ) → I2cCall

-- The static variables LastPage and LastSlaveAddr, of which -1 is none.
pub record Cache : Type 0 where
  pub last_page : Option ℕ
  pub last_slave_addr : Option ℕ

abbrev pub I2c : Type 0 → Type 0
I2c A = Act I2cCall Cache A

abbrev pub page_cmd : ℕ
page_cmd = 1

abbrev pub part_num_cmd : ℕ
part_num_cmd = 2

abbrev pub buf_len : ℕ
buf_len = 2

abbrev pub preamble_size : ℕ
preamble_size = 3

abbrev pub postamble_size : ℕ
postamble_size = 5

abbrev pub si5381_addr : ℕ
si5381_addr = 0x68

abbrev pub si5381_id : ℕ
si5381_id = 0x5381

abbrev pub is_some : Option ℕ → ℕ → Bool
is_some none n = false
is_some (some m) n = m == n

abbrev pub page_of : ℕ → ℕ
page_of reg = (reg / 256) % 256

-- `fuel` bounds each wait for the bus.
module _ (fuel : ℕ) where
  unfoldable pub wait_loop : ℕ → I2c (Unit {0})
  wait_loop zero = hung
  wait_loop (suc n) = do
    let rest = wait_loop n
    busy ← ask bus_is_busy
    if busy == 1 then rest else pure tt

  -- A send, and the wait for it.
  unfoldable pub send_polled : (slave_addr : ℕ) (bytes : List ℕ) → I2c Status
  send_polled slave_addr bytes = do
    s ← call (send slave_addr bytes)
    elim s [ failure ↦ pure failure | success ↦ do wait_loop fuel; pure success ]

  -- The page command, unless the device has that page.
  unfoldable pub set_page : (slave_addr page : ℕ) → I2c Status
  set_page slave_addr page = do
    cache ← gets (λ c. c)
    if is_some cache.last_page page && is_some cache.last_slave_addr slave_addr
        then pure success
        else (do
          s ← send_polled slave_addr (page_cmd ∷ page ∷ [])
          elim s [
            | failure ↦ pure failure
            | success ↦ do
              modify λ c. record { last_page = some page; last_slave_addr = some slave_addr }
              pure success
          ])

  -- A longer write overruns the buffer.
  unfoldable pub send_register : (slave_addr reg : ℕ) (data_bytes : List ℕ) → I2c Status
  send_register slave_addr reg data_bytes =
      if ltb buf_len (length data_bytes)
      then faulted
      else send_polled slave_addr (reg % 256 ∷ data_bytes)

  unfoldable pub write_si538x_register : (slave_addr reg : ℕ) (data_bytes : List ℕ) → I2c Status
  write_si538x_register slave_addr reg data_bytes = do
    s ← set_page slave_addr (page_of reg)
    elim s [ failure ↦ pure failure | success ↦ send_register slave_addr reg data_bytes ]

  -- The status, and what is read behind zeros.
  unfoldable pub recv_polled : (slave_addr len : ℕ) → I2c (Status × List ℕ)
  recv_polled slave_addr len = do
    (s, bytes) ← fetch (recv slave_addr len)
    elim s [ failure ↦ pure (failure, bytes) | success ↦ do wait_loop fuel; pure (success, bytes) ]

  unfoldable pub read_si538x_register : (slave_addr reg len : ℕ) → I2c (Status × List ℕ)
  read_si538x_register slave_addr reg len = do
    s ← write_si538x_register slave_addr reg []
    elim s [ failure ↦ pure (failure, []) | success ↦ recv_polled slave_addr len ]

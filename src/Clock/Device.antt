-- ===== src/Clock/Device.antt =====
-- The device at one I2C address, as the log of the sends shows it: the page that it has, and the
-- registers that were written in it.
use software_prototypes.Base.{
  ℕ, suc, zero, ◌≡◌, ◌≢◌, ◌⊎◌, sym, ap, ◌∙◌, Bool, true, false, ◌&&◌, List, [], ◌∷◌, ◌==◌, ◌+◌, ◌*◌,
  ◌%◌, ◌<◌, Option, none, some, if◌then◌else◌, arith,
}
use software_prototypes.Machine.{
  Status, success, failure, Env, World, Outcome, ok, stop, hang, fault, logged,
}
use software_prototypes.Clock.{
  I2cCall, lookup_config, cfg_initialize, bus_is_busy, set_sclk, usleep, send, recv, Cache,
  page_cmd, page_of, wait_loop, send_polled, set_page, send_register, write_si538x_register,
  recv_polled, read_si538x_register,
}

-- The page after a write of these bytes.
abbrev pub page_after : List ℕ → Option ℕ → Option ℕ
page_after [] page = page
page_after (r ∷ []) page = page
page_after (r ∷ v ∷ []) page = if r == page_cmd then some v else page
page_after (r ∷ v ∷ u ∷ bs) page = page

-- The registers written, newest first, after a write of these bytes in this page.
abbrev pub write_in : ℕ → List ℕ → List (ℕ × ℕ) → List (ℕ × ℕ)
write_in page [] l = l
write_in page (r ∷ []) l = l
write_in page (r ∷ v ∷ []) l = if r == page_cmd then l else (page * 256 + r, v) ∷ l
write_in page (r ∷ v ∷ u ∷ bs) l = l

abbrev pub write_after : List ℕ → Option ℕ → List (ℕ × ℕ) → List (ℕ × ℕ)
write_after bytes none l = l
write_after bytes (some page) l = write_in page bytes l

abbrev pub is_success : Status → Bool
is_success success = true
is_success failure = false

abbrev pub is_ok : Outcome Status → Bool
is_ok (ok success) = true
is_ok (ok failure) = false
is_ok stop = false
is_ok hang = false
is_ok fault = false

module _ (e : Env I2cCall) (a : ℕ) where
  unfoldable pub device_page : List I2cCall → Option ℕ
  device_page [] = none
  device_page (send s b ∷ l) =
      let page = device_page l in
      if s == a && is_success (e.status l (send s b)) then page_after b page else page
  device_page (lookup_config ∷ l) = device_page l
  device_page (cfg_initialize ∷ l) = device_page l
  device_page (bus_is_busy ∷ l) = device_page l
  device_page (set_sclk n ∷ l) = device_page l
  device_page (usleep n ∷ l) = device_page l
  device_page (recv s n ∷ l) = device_page l

  unfoldable pub device_writes : List I2cCall → List (ℕ × ℕ)
  device_writes [] = []
  device_writes (send s b ∷ l) =
      let rest = device_writes l in
      if s == a && is_success (e.status l (send s b))
      then write_after b (device_page l) rest
      else rest
  device_writes (lookup_config ∷ l) = device_writes l
  device_writes (cfg_initialize ∷ l) = device_writes l
  device_writes (bus_is_busy ∷ l) = device_writes l
  device_writes (set_sclk n ∷ l) = device_writes l
  device_writes (usleep n ∷ l) = device_writes l
  device_writes (recv s n ∷ l) = device_writes l

  -- The cached page is the page of the device, where the cache is for this device.
  unfoldable pub Agrees : Option ℕ → Option ℕ → Option ℕ → Type 0
  Agrees none slave page = Unit
  Agrees (some p) none page = Unit
  Agrees (some p) (some s) page = (s ≢ a) ⊎ (page ≡ some p)

  unfoldable pub Coherent : World I2cCall Cache → Type 0
  Coherent w = Agrees w.globals.last_page w.globals.last_slave_addr (device_page w.log)

  -- The same page, registers and cache.
  unfoldable pub Same : World I2cCall Cache → World I2cCall Cache → Type 0
  Same w w' =
      (w'.globals ≡ w.globals)
      × (device_page w'.log ≡ device_page w.log)
      × (device_writes w'.log ≡ device_writes w.log)

  pub wait_loop_lem : (n fuel : ℕ) (w : World I2cCall Cache) → Same w (wait_loop fuel n e w).1
  unfolding wait_loop device_page device_writes Same
  wait_loop_lem zero fuel w = ground arith
  wait_loop_lem (suc n) fuel w = ground (arith, wait_loop_lem n fuel (logged bus_is_busy w))

  module _ (fuel : ℕ) where
    pub send_polled_lem :
        (s : ℕ) (b : List ℕ) (w : World I2cCall Cache)
        → Same (logged (send s b) w) (send_polled fuel s b e w).1
    unfolding send_polled Same
    send_polled_lem s b w = ground (arith, wait_loop_lem fuel fuel (logged (send s b) w))

    pub send_polled_ok :
        (s : ℕ) (b : List ℕ) (w : World I2cCall Cache)
        → (send_polled fuel s b e w).0 ≡ ok success
        → e.status w.log (send s b) ≡ success
    unfolding send_polled
    send_polled_ok s b w h = ground arith

    send_polled_failed :
        (s : ℕ) (b : List ℕ) (w : World I2cCall Cache)
        → (send_polled fuel s b e w).0 ≡ ok failure
        → e.status w.log (send s b) ≡ failure
    unfolding send_polled
    send_polled_failed s b w h = ground arith

    -- Where `set_page` returns, with success or not, the cache is coherent and no register written.
    pub set_page_writes :
        (page : ℕ) (w : World I2cCall Cache)
        → device_writes (set_page fuel a page e w).1.log ≡ device_writes w.log
    unfolding set_page device_page device_writes Same
    set_page_writes page w =
        let cmd = page_cmd ∷ page ∷ [] in ground (arith, send_polled_lem a cmd w)

    pub set_page_lem :
        (page : ℕ) (s : Status) (w : World I2cCall Cache)
        → Coherent w
        → (set_page fuel a page e w).0 ≡ ok s
        → Coherent (set_page fuel a page e w).1
    unfolding set_page device_page device_writes Same Coherent Agrees
    set_page_lem page s w h r =
        let cmd = page_cmd ∷ page ∷ [] in
        ground
          (arith, h, r, send_polled_lem a cmd w, send_polled_ok a cmd w, send_polled_failed a cmd w)

    pub set_page_ok :
        (page : ℕ) (w : World I2cCall Cache)
        → Coherent w
        → (set_page fuel a page e w).0 ≡ ok success
        → device_page (set_page fuel a page e w).1.log ≡ some page
    unfolding set_page device_page device_writes Same Coherent Agrees
    set_page_ok page w h r =
        let cmd = page_cmd ∷ page ∷ [] in
        ground (arith, h, r, send_polled_lem a cmd w, send_polled_ok a cmd w)

    -- What `set_page` leaves to the send of a register.
    pub write_reduces :
        (reg : ℕ) (b : List ℕ) (w : World I2cCall Cache)
        → let (r, w') = set_page fuel a (page_of reg) e w in
          (write_si538x_register fuel a reg b e w
            ≡ (if is_ok r then send_register fuel a reg b e w' else (r, w')))
    unfolding write_si538x_register
    write_reduces reg b w = ground arith

    -- A register write of one byte in the register's page.
    pub send_register_lem :
        (reg v : ℕ) (w : World I2cCall Cache)
        → reg < 65536
        → reg % 256 ≢ page_cmd
        → Coherent w
        → device_page w.log ≡ some (page_of reg)
        → let (r, w') = send_register fuel a reg (v ∷ []) e w in
          r ≡ ok success → Coherent w' × (device_writes w'.log ≡ (reg, v) ∷ device_writes w.log)
    unfolding send_register device_page device_writes Same Coherent Agrees
    send_register_lem reg v w b n h p r =
        let bytes = reg % 256 ∷ v ∷ [] in
        ground (arith, h, p, r, send_polled_lem a bytes w, send_polled_ok a bytes w)

    pub write_ok :
        (reg : ℕ) (b : List ℕ) (w : World I2cCall Cache)
        → (write_si538x_register fuel a reg b e w).0 ≡ ok success
        → let (r, w') = set_page fuel a (page_of reg) e w in
          (r ≡ ok success)
          × (write_si538x_register fuel a reg b e w ≡ send_register fuel a reg b e w')
    write_ok reg b w h = ground (arith, h, write_reduces reg b w)

    -- A successful write of one byte reaches the register of that address, if the register
    -- is not the page register.
    pub write_si538x_register_lem :
        (reg v : ℕ) (w : World I2cCall Cache)
        → reg < 65536
        → reg % 256 ≢ page_cmd
        → Coherent w
        → (write_si538x_register fuel a reg (v ∷ []) e w).0 ≡ ok success
        → let w' = (write_si538x_register fuel a reg (v ∷ []) e w).1 in
          Coherent w' × (device_writes w'.log ≡ (reg, v) ∷ device_writes w.log)
    write_si538x_register_lem reg v w b n h r =
        let (s, q) = write_ok reg (v ∷ []) w r in
        let paged = (set_page fuel a (page_of reg) e w).1 in
        let (c, d) =
          send_register_lem reg v paged b n (set_page_lem (page_of reg) success w h s)
            (set_page_ok (page_of reg) w h s) (sym (ap (λ x. x.0) q) ∙ r) in
        rw q (c, d ∙ ap (λ l. (reg, v) ∷ l) (set_page_writes (page_of reg) w))

    -- The send of a register's address alone, for a read.
    pub send_address_lem :
        (reg : ℕ) (s : Status) (w : World I2cCall Cache)
        → Coherent w
        → let (r, w') = send_register fuel a reg [] e w in
          r ≡ ok s → Coherent w' × (device_writes w'.log ≡ device_writes w.log)
    unfolding send_register device_page device_writes Same Coherent Agrees
    send_address_lem reg s w h r =
        let bytes = reg % 256 ∷ [] in ground (arith, h, r, send_polled_lem a bytes w)

    pub write_address_lem :
        (reg : ℕ) (s : Status) (w : World I2cCall Cache)
        → Coherent w
        → (write_si538x_register fuel a reg [] e w).0 ≡ ok s
        → let w' = (write_si538x_register fuel a reg [] e w).1 in
          Coherent w' × (device_writes w'.log ≡ device_writes w.log)
    write_address_lem reg s w h r =
        let paged = (set_page fuel a (page_of reg) e w).1 in
        ground (
          arith,
          r,
          write_reduces reg [] w,
          set_page_lem (page_of reg) success w h,
          set_page_lem (page_of reg) failure w h,
          set_page_writes (page_of reg) w,
          send_address_lem reg s paged,
        )

    recv_polled_lem : (n : ℕ) (w : World I2cCall Cache) → Same w (recv_polled fuel a n e w).1
    unfolding recv_polled device_page device_writes Same
    recv_polled_lem n w = ground (arith, wait_loop_lem fuel fuel (logged (recv a n) w))

    -- A read that returns, with success or not, writes no register.
    pub read_lem :
        (reg n : ℕ) (x : Status × List ℕ) (w : World I2cCall Cache)
        → Coherent w
        → (read_si538x_register fuel a reg n e w).0 ≡ ok x
        → let w' = (read_si538x_register fuel a reg n e w).1 in
          Coherent w' × (device_writes w'.log ≡ device_writes w.log)
    unfolding read_si538x_register Same Coherent
    read_lem reg n x w h r =
        let sent = (write_si538x_register fuel a reg [] e w).1 in
        ground (
          arith,
          r,
          write_address_lem reg success w h,
          write_address_lem reg failure w h,
          recv_polled_lem n sent,
        )

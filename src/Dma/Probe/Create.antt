-- ===== src/Dma/Probe/Create.antt =====
-- What the creation of channels acquires, in linux-user-space-dma/Software/Kernel/dma-proxy.c.
use software_prototypes.Base.{
  ℕ, suc, zero, ◌≡◌, ◌≢◌, refl, sym, ap, ◌∙◌, Bool, false, List, ◌∷◌, arith,
}
use software_prototypes.Machine.{Env, World, ok}
use software_prototypes.Dma.Shared.{buffer_count}
use software_prototypes.Dma.Transfer.{Direction, Channel}
use software_prototypes.Dma.Channel.{
  SetupCall, request_chan, cdev_init, cdev_add, device_create, zero_code, is_err_or_null,
  cdevice_init, handles_loop, create_buffers, create_channel,
}
use software_prototypes.Dma.Channel.Codes.{added, created, cdevice_init_iff}
use software_prototypes.Dma.Probe.Resources.{
  Resource, dma_channel, cdev, device, class, region, acquired, released, given, taken,
}

handles_loop_pointers :
    (n : ℕ) (ch : Channel)
    → let ch' = handles_loop n ch in
      (ch'.proxy_device ≡ ch.proxy_device)
      × (ch'.dma_channel ≡ ch.dma_channel)
      × (ch'.channel ≡ ch.channel)
unfolding handles_loop
handles_loop_pointers zero ch = (refl, refl, refl)
handles_loop_pointers (suc n) ch = grind (arith, handles_loop_pointers n)

-- One more of what a channel needs, and none given back; its pointers are set.
pub record Created (is_err : ℕ → Bool) (e : Env SetupCall) (l l' : List SetupCall) (ch : Channel)
    : Type 0 where
  pub channels : acquired is_err e dma_channel l' ≡ suc (acquired is_err e dma_channel l)
  pub cdevs : acquired is_err e cdev l' ≡ suc (acquired is_err e cdev l)
  pub devices : acquired is_err e device l' ≡ suc (acquired is_err e device l)
  pub classes : acquired is_err e class l' ≡ acquired is_err e class l
  pub regions : acquired is_err e region l' ≡ acquired is_err e region l
  pub kept : (r : Resource) → released r l' ≡ released r l
  pub has_device : ch.proxy_device ≢ 0
  pub has_channel : ch.dma_channel ≢ 0

-- Which ones these are: those of channel i.
pub record Named (is_err : ℕ → Bool) (e : Env SetupCall) (i : ℕ) (l l' : List SetupCall)
    (ch : Channel) : Type 0 where
  pub channels : given is_err e dma_channel l' ≡ ch.dma_channel ∷ given is_err e dma_channel l
  pub cdevs : given is_err e cdev l' ≡ i ∷ given is_err e cdev l
  pub devices : given is_err e device l' ≡ i ∷ given is_err e device l
  pub kept : (r : Resource) → taken r l' ≡ taken r l
  pub number : ch.channel ≡ i

module _ (is_err : ℕ → Bool) (e : Env SetupCall) where
  pub create_buffers_frame :
      (d : Direction) (r : Resource) (w : World SetupCall Channel)
      → let w' = (create_buffers is_err d e w).1 in
        (w'.globals.proxy_device ≡ w.globals.proxy_device)
        × (w'.globals.dma_channel ≡ w.globals.dma_channel)
        × (acquired is_err e r w'.log ≡ acquired is_err e r w.log)
        × (released r w'.log ≡ released r w.log)
  unfolding create_buffers acquired released
  create_buffers_frame d dma_channel w = grind (arith, handles_loop_pointers buffer_count)
  create_buffers_frame d cdev w = grind (arith, handles_loop_pointers buffer_count)
  create_buffers_frame d device w = grind (arith, handles_loop_pointers buffer_count)
  create_buffers_frame d class w = grind (arith, handles_loop_pointers buffer_count)
  create_buffers_frame d region w = grind (arith, handles_loop_pointers buffer_count)

  not_null : (p : ℕ) → p ≢ 0 → is_err p ≡ false → is_err_or_null is_err p ≡ false
  unfolding is_err_or_null
  not_null p n f = ground (arith, n, f)

  cdevice_init_effect :
      (w : World SetupCall Channel)
      → added is_err e w ≡ 0
      → is_err_or_null is_err (created is_err e w) ≡ false
      → let w' = (cdevice_init is_err e w).1 in
        (w'.log ≡ device_create w.globals.channel ∷ cdev_add w.globals.channel ∷ cdev_init ∷ w.log)
        × (w'.globals.proxy_device ≡ created is_err e w)
        × (w'.globals.dma_channel ≡ w.globals.dma_channel)
  unfolding cdevice_init
  cdevice_init_effect w a f = ground (arith, a, f)

  -- What a successful `cdevice_init` has done.
  cdevice_init_success :
      (w : World SetupCall Channel)
      → (cdevice_init is_err e w).0 ≡ ok zero_code
      → let w' = (cdevice_init is_err e w).1 in
        let l = cdev_init ∷ w.log in
        let i = w.globals.channel in
        (w'.log ≡ device_create i ∷ cdev_add i ∷ l)
        × (e.value l (cdev_add i) ≡ 0)
        × (is_err_or_null is_err (e.value (cdev_add i ∷ l) (device_create i)) ≡ false)
        × (w'.globals.proxy_device ≡ e.value (cdev_add i ∷ l) (device_create i))
        × (w'.globals.dma_channel ≡ w.globals.dma_channel)
  cdevice_init_success w h =
      let (a, n, f) = (cdevice_init_iff is_err e w).0.0 h in
      let (l, p, q) = cdevice_init_effect w a (not_null (created is_err e w) n f) in
      (l, a, not_null (created is_err e w) n f, p, q)

  -- What a successful `create_channel` has done, before it allocates the buffers.
  create_channel_success :
      (i : ℕ) (d : Direction) (w : World SetupCall Channel)
      → (create_channel is_err i d e w).0 ≡ ok zero_code
      → let asked : World SetupCall Channel = record {
        log = request_chan ∷ w.log;
        globals = record w.globals { channel = i; dma_channel = e.value w.log request_chan };
      } in
        (is_err_or_null is_err (e.value w.log request_chan) ≡ false)
        × ((cdevice_init is_err e asked).0 ≡ ok zero_code)
        × (create_channel is_err i d e w
            ≡ create_buffers is_err d e (cdevice_init is_err e asked).1)
  unfolding create_channel
  create_channel_success i d w h = ground (arith, h)

  is_err_or_null-ne : (p : ℕ) → is_err_or_null is_err p ≡ false → p ≢ 0
  unfolding is_err_or_null
  is_err_or_null-ne p h = ground (arith, h)

  -- The calls of a successful creation up to the buffers.
  abbrev set_up_log : (channel : ℕ) → List SetupCall → List SetupCall
  set_up_log i l = device_create i ∷ cdev_add i ∷ cdev_init ∷ request_chan ∷ l

  acquired-set_up_log :
      (i : ℕ) (l : List SetupCall)
      → is_err_or_null is_err (e.value l request_chan) ≡ false
      → let l' = cdev_init ∷ request_chan ∷ l in
        e.value l' (cdev_add i) ≡ 0
        → is_err_or_null is_err (e.value (cdev_add i ∷ l') (device_create i)) ≡ false
        → (acquired is_err e dma_channel (set_up_log i l) ≡ suc (acquired is_err e dma_channel l))
          × (acquired is_err e cdev (set_up_log i l) ≡ suc (acquired is_err e cdev l))
          × (acquired is_err e device (set_up_log i l) ≡ suc (acquired is_err e device l))
          × (acquired is_err e class (set_up_log i l) ≡ acquired is_err e class l)
          × (acquired is_err e region (set_up_log i l) ≡ acquired is_err e region l)
  unfolding acquired
  acquired-set_up_log i l a b c = ground (arith, a, b, c)

  released-set_up_log :
      (r : Resource) (i : ℕ) (l : List SetupCall) → released r (set_up_log i l) ≡ released r l
  unfolding released
  released-set_up_log dma_channel i l = omega arith
  released-set_up_log cdev i l = omega arith
  released-set_up_log device i l = omega arith
  released-set_up_log class i l = omega arith
  released-set_up_log region i l = omega arith

  pub create_channel-Created :
      (i : ℕ) (d : Direction) (w : World SetupCall Channel)
      → (create_channel is_err i d e w).0 ≡ ok zero_code
      → let w' = (create_channel is_err i d e w).1 in Created is_err e w.log w'.log w'.globals
  create_channel-Created i d w h =
      let (a, b, c) = create_channel_success i d w h in
      let (l, x, y, p, q) =
        cdevice_init_success
          (record {
            log = request_chan ∷ w.log;
            globals = record w.globals { channel = i; dma_channel = e.value w.log request_chan };
          })
          b in
      let (s, t, u, v, z) = acquired-set_up_log i w.log a x y in
      let f = λ (r : Resource).
        create_buffers_frame d r
          (cdevice_init is_err e (record {
            log = request_chan ∷ w.log;
            globals = record w.globals { channel = i; dma_channel = e.value w.log request_chan };
          })).1 in
      rw c (record {
        channels = (f dma_channel).2 ∙ ap (acquired is_err e dma_channel) l ∙ s;
        cdevs = (f cdev).2 ∙ ap (acquired is_err e cdev) l ∙ t;
        devices = (f device).2 ∙ ap (acquired is_err e device) l ∙ u;
        classes = (f class).2 ∙ ap (acquired is_err e class) l ∙ v;
        regions = (f region).2 ∙ ap (acquired is_err e region) l ∙ z;
        kept = λ r. (f r).3 ∙ ap (released r) l ∙ released-set_up_log r i w.log;
        has_device = λ n. is_err_or_null-ne _ y (sym p ∙ sym (f device).0 ∙ n);
        has_channel = λ n. is_err_or_null-ne _ a (sym q ∙ sym (f device).1 ∙ n);
      })

  create_buffers_ids :
      (d : Direction) (r : Resource) (w : World SetupCall Channel)
      → let w' = (create_buffers is_err d e w).1 in
        (w'.globals.dma_channel ≡ w.globals.dma_channel)
        × (w'.globals.channel ≡ w.globals.channel)
        × (given is_err e r w'.log ≡ given is_err e r w.log)
        × (taken r w'.log ≡ taken r w.log)
  unfolding create_buffers given taken
  create_buffers_ids d dma_channel w = grind (arith, handles_loop_pointers buffer_count)
  create_buffers_ids d cdev w = grind (arith, handles_loop_pointers buffer_count)
  create_buffers_ids d device w = grind (arith, handles_loop_pointers buffer_count)
  create_buffers_ids d class w = grind (arith, handles_loop_pointers buffer_count)
  create_buffers_ids d region w = grind (arith, handles_loop_pointers buffer_count)

  cdevice_init_number :
      (w : World SetupCall Channel)
      → (cdevice_init is_err e w).1.globals.channel ≡ w.globals.channel
  unfolding cdevice_init
  cdevice_init_number w = ground arith

  given-set_up_log :
      (i : ℕ) (l : List SetupCall)
      → is_err_or_null is_err (e.value l request_chan) ≡ false
      → let l' = cdev_init ∷ request_chan ∷ l in
        e.value l' (cdev_add i) ≡ 0
        → is_err_or_null is_err (e.value (cdev_add i ∷ l') (device_create i)) ≡ false
        → (given is_err e dma_channel (set_up_log i l)
            ≡ e.value l request_chan ∷ given is_err e dma_channel l)
          × (given is_err e cdev (set_up_log i l) ≡ i ∷ given is_err e cdev l)
          × (given is_err e device (set_up_log i l) ≡ i ∷ given is_err e device l)
  unfolding given
  given-set_up_log i l a b c = ground (arith, a, b, c)

  taken-set_up_log :
      (r : Resource) (i : ℕ) (l : List SetupCall) → taken r (set_up_log i l) ≡ taken r l
  unfolding taken
  taken-set_up_log dma_channel i l = refl
  taken-set_up_log cdev i l = refl
  taken-set_up_log device i l = refl
  taken-set_up_log class i l = refl
  taken-set_up_log region i l = refl

  pub create_channel-Named :
      (i : ℕ) (d : Direction) (w : World SetupCall Channel)
      → (create_channel is_err i d e w).0 ≡ ok zero_code
      → let w' = (create_channel is_err i d e w).1 in Named is_err e i w.log w'.log w'.globals
  create_channel-Named i d w h =
      let asked : World SetupCall Channel = record {
        log = request_chan ∷ w.log;
        globals = record w.globals { channel = i; dma_channel = e.value w.log request_chan };
      } in
      let (a, b, c) = create_channel_success i d w h in
      let (l, x, y, p, q) = cdevice_init_success asked b in
      let (s, t, u) = given-set_up_log i w.log a x y in
      let w1 = (cdevice_init is_err e asked).1 in
      let f = λ (r : Resource). create_buffers_ids d r w1 in
      let pointer : (create_buffers is_err d e w1).1.globals.dma_channel
          ≡ e.value w.log request_chan =
        (f device).0 ∙ q in
      rw c (record {
        channels =
            (f dma_channel).2
            ∙ ap (given is_err e dma_channel) l
            ∙ s
            ∙ ap (λ k. k ∷ given is_err e dma_channel w.log) (sym pointer);
        cdevs = (f cdev).2 ∙ ap (given is_err e cdev) l ∙ t;
        devices = (f device).2 ∙ ap (given is_err e device) l ∙ u;
        kept = λ r. (f r).3 ∙ ap (taken r) l ∙ taken-set_up_log r i w.log;
        number = (f device).1 ∙ cdevice_init_number asked;
      })

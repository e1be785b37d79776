-- ===== src/Dma/Probe/Balance.antt =====
-- `dma_proxy_remove` gives back what a successful `dma_proxy_probe` acquired.
use software_prototypes.Base.{
  ℕ, ◌≡◌, refl, sym, ap, ◌∙◌, Bool, true, false, List, [], ◌∷◌, ◌+◌, length, arith,
}
use software_prototypes.Machine.{Env, World, ok}
use software_prototypes.Dma.Channel.{
  SetupCall, kmalloc_proxy, count_names, kmalloc_names, read_names, kmalloc_channels, class_create,
  alloc_chrdev_region, zero_code, is_err_or_null,
}
use software_prototypes.Dma.Probe.{
  Proxy, is_positive, create_channels, probe_region, probe_class, probe_channels, probe_names,
  dma_proxy_probe, turns, dma_proxy_remove,
}
use software_prototypes.Dma.Probe.Resources.{
  Resource, dma_channel, cdev, device, class, region, acquired, released, given, taken, down,
  down_ext,
}
use software_prototypes.Dma.Probe.Remove.{
  dma_proxy_remove_lem, owed, acquired-removal, released-removal,
}
use software_prototypes.Dma.Probe.Remove.{numbers, removal}
use software_prototypes.Dma.Probe.Taken.{taken-removal, given-removal}
use software_prototypes.Dma.Probe.Holding.{Holding, got, create_channels-Holding}

module _ (is_err : ℕ → Bool) (e : Env SetupCall) where
  -- The world in which the channels are created, with what its class and its region were answered.
  abbrev set_up : (names : List (List ℕ)) → World SetupCall Proxy → World SetupCall Proxy
  set_up names w =
      let l = kmalloc_channels ∷ read_names ∷ kmalloc_names ∷ count_names ∷ kmalloc_proxy ∷ w.log in
      record {
        log = alloc_chrdev_region ∷ class_create ∷ l;
        globals = record w.globals {
          channel_count = e.value (kmalloc_proxy ∷ w.log) count_names;
          class = e.value l class_create;
        };
      }

  probe_region_success :
      (names : List (List ℕ)) (w : World SetupCall Proxy)
      → (probe_region is_err names e w).0 ≡ ok zero_code
      → (e.value w.log alloc_chrdev_region ≡ 0)
        × (probe_region is_err names e w
            ≡ create_channels is_err 0 names e (record w { log = alloc_chrdev_region ∷ w.log }))
  unfolding probe_region
  probe_region_success names w h = ground (arith, h)

  probe_class_success :
      (names : List (List ℕ)) (w : World SetupCall Proxy)
      → (probe_class is_err names e w).0 ≡ ok zero_code
      → let w' : World SetupCall Proxy = record {
        log = class_create ∷ w.log;
        globals = record w.globals { class = e.value w.log class_create };
      } in
        (is_err_or_null is_err (e.value w.log class_create) ≡ false)
        × (probe_class is_err names e w ≡ probe_region is_err names e w')
  unfolding probe_class
  probe_class_success names w h = ground (arith, h)

  probe_names_success :
      (names : List (List ℕ)) (w : World SetupCall Proxy)
      → (probe_names is_err names e w).0 ≡ ok zero_code
      → let l = kmalloc_channels ∷ read_names ∷ kmalloc_names ∷ w.log in
        probe_names is_err names e w ≡ probe_class is_err names e (record w { log = l })
  unfolding probe_names probe_channels
  probe_names_success names w h = ground (arith, h)

  dma_proxy_probe_success :
      (names : List (List ℕ)) (w : World SetupCall Proxy)
      → (dma_proxy_probe is_err names e w).0 ≡ ok zero_code
      → is_positive (e.value (kmalloc_proxy ∷ w.log) count_names) ≡ true
      → let w' : World SetupCall Proxy = record {
        log = count_names ∷ kmalloc_proxy ∷ w.log;
        globals = record w.globals { channel_count = e.value (kmalloc_proxy ∷ w.log) count_names };
      } in
        dma_proxy_probe is_err names e w ≡ probe_names is_err names e w'
  unfolding dma_proxy_probe
  dma_proxy_probe_success names w h p = ground (arith, h, p)

  -- Before the channels are created, on the first call of the driver.
  set_up-Holding :
      (names : List (List ℕ)) (p : Proxy)
      → let w = set_up names (record { log = []; globals = p }) in
        let l = kmalloc_channels ∷ read_names ∷ kmalloc_names ∷ count_names ∷ kmalloc_proxy ∷ [] in
        e.value (kmalloc_proxy ∷ []) count_names ≡ length names
        → length p.channels ≡ length names
        → is_err_or_null is_err (e.value l class_create) ≡ false
        → e.value (class_create ∷ l) alloc_chrdev_region ≡ 0
        → Holding is_err e 0 (length names) w
  unfolding acquired released given taken down
  set_up-Holding names p c s k r = record {
    channels = omega arith;
    cdevs = omega arith;
    devices = omega arith;
    classes = ground (arith, k);
    regions = ground (arith, r);
    kept = none_released;
    room = s;
    count = c;
    has_device = λ j l. absurd (omega (arith, l));
    has_channel = λ j l. absurd (omega (arith, l));
    which_channels = refl;
    which_cdevs = refl;
    which_devices = refl;
    none_taken = nothing_taken;
    numbered = λ j l. absurd (omega (arith, l));
  }
    where
      none_released :
          (r : Resource) → released r (set_up names (record { log = []; globals = p })).log ≡ 0
      none_released dma_channel = omega arith
      none_released cdev = omega arith
      none_released device = omega arith
      none_released class = omega arith
      none_released region = omega arith

      nothing_taken :
          (r : Resource) → taken r (set_up names (record { log = []; globals = p })).log ≡ []
      nothing_taken dma_channel = refl
      nothing_taken cdev = refl
      nothing_taken device = refl
      nothing_taken class = refl
      nothing_taken region = refl

  probe-Holding :
      (names : List (List ℕ)) (p : Proxy)
      → let w0 : World SetupCall Proxy = record { log = []; globals = p } in
        e.value (kmalloc_proxy ∷ []) count_names ≡ length names
        → is_positive (length names) ≡ true
        → length p.channels ≡ length names
        → (dma_proxy_probe is_err names e w0).0 ≡ ok zero_code
        → Holding is_err e (length names) (length names) (dma_proxy_probe is_err names e w0).1
  probe-Holding names p c b s h =
      let w0 : World SetupCall Proxy = record { log = []; globals = p } in
      let l = kmalloc_channels ∷ read_names ∷ kmalloc_names ∷ count_names ∷ kmalloc_proxy ∷ [] in
      let counted = record p { channel_count = e.value (kmalloc_proxy ∷ []) count_names } in
      let same1 = dma_proxy_probe_success names w0 h (rw c b) in
      let same2 =
        probe_names_success names
          (record { log = count_names ∷ kmalloc_proxy ∷ []; globals = counted })
          (sym (ap (λ q. q.0) same1) ∙ h) in
      let (k, same3) =
        probe_class_success names (record { log = l; globals = counted })
          (sym (ap (λ q. q.0) (same1 ∙ same2)) ∙ h) in
      let (r, same4) =
        probe_region_success names
          (record {
            log = class_create ∷ l;
            globals = record counted { class = e.value l class_create };
          })
          (sym (ap (λ q. q.0) (same1 ∙ same2 ∙ same3)) ∙ h) in
      let same = same1 ∙ same2 ∙ same3 ∙ same4 in
      rw same (
        create_channels-Holding is_err e 0 (length names) names (set_up names w0) (omega arith)
          (set_up-Holding names p c s k r) (sym (ap (λ q. q.0) same) ∙ h))

  -- When `dma_proxy_probe` returns 0 on its first run, with the number of channels that the device tree
  -- names, above 0, and the channels allocated for it: `dma_proxy_remove` returns, and has
  -- then given back as many of each resource as were acquired, which is one class, one region, and for
  -- each name one DMA channel, one character device and one device.
  pub probe_remove_balance :
      (names : List (List ℕ)) (p : Proxy)
      → let w0 : World SetupCall Proxy = record { log = []; globals = p } in
        e.value (kmalloc_proxy ∷ []) count_names ≡ length names
        → is_positive (length names) ≡ true
        → length p.channels ≡ length names
        → (dma_proxy_probe is_err names e w0).0 ≡ ok zero_code
        → let (r, w) = dma_proxy_remove is_err e (dma_proxy_probe is_err names e w0).1 in
          (r ≡ ok tt)
          × ((x : Resource)
              → (acquired is_err e x w.log ≡ owed x (length names))
                × (released x w.log ≡ owed x (length names)))
          × (taken dma_channel w.log ≡ given is_err e dma_channel w.log)
          × (taken cdev w.log ≡ given is_err e cdev w.log)
          × (taken device w.log ≡ given is_err e device w.log)
  probe_remove_balance names p c b s h =
      let n = length names in
      let w1 = (dma_proxy_probe is_err names e (record { log = []; globals = p })).1 in
      let held = probe-Holding names p c b s h in
      let turned : turns is_err w1.globals.channel_count ≡ n = rw held.count (rw b refl) in
      rw (dma_proxy_remove_lem is_err e n w1 turned held.has_device held.has_channel) (
        refl,
        λ x. (
          acquired-removal is_err e x w1.globals n w1.log ∙ all x n w1 held,
          released-removal x w1.globals n w1.log
              ∙ ap (λ m. owed x n + m) (held.kept x)
              ∙ omega arith,
        ),
        channels_named n w1 held,
        cdevs_named n w1 held,
        devices_named n w1 held,
      )
    where
      all :
          (x : Resource) (n : ℕ) (w : World SetupCall Proxy)
          → Holding is_err e n n w
          → got is_err e x w ≡ owed x n
      all dma_channel n w h = h.channels
      all cdev n w h = h.cdevs
      all device n w h = h.devices
      all class n w h = h.classes
      all region n w h = h.regions

      channels_named :
          (n : ℕ) (w : World SetupCall Proxy)
          → Holding is_err e n n w
          → let l = removal w.globals n w.log in taken dma_channel l ≡ given is_err e dma_channel l
      channels_named n w h =
          (taken-removal w.globals n w.log h.none_taken).0
          ∙ sym (given-removal is_err e dma_channel w.globals n w.log ∙ h.which_channels)

      cdevs_named :
          (n : ℕ) (w : World SetupCall Proxy)
          → Holding is_err e n n w
          → let l = removal w.globals n w.log in taken cdev l ≡ given is_err e cdev l
      cdevs_named n w h =
          (taken-removal w.globals n w.log h.none_taken).1
          ∙ down_ext (numbers w.globals) (λ j. j) n h.numbered
          ∙ sym (given-removal is_err e cdev w.globals n w.log ∙ h.which_cdevs)

      devices_named :
          (n : ℕ) (w : World SetupCall Proxy)
          → Holding is_err e n n w
          → let l = removal w.globals n w.log in taken device l ≡ given is_err e device l
      devices_named n w h =
          (taken-removal w.globals n w.log h.none_taken).2
          ∙ down_ext (numbers w.globals) (λ j. j) n h.numbered
          ∙ sym (given-removal is_err e device w.globals n w.log ∙ h.which_devices)

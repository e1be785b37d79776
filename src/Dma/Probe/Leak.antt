-- ===== src/Dma/Probe/Leak.antt =====
-- What the error paths of `dma_proxy_probe` in linux-user-space-dma/Software/Kernel/dma-proxy.c give back.
use software_prototypes.Base.{ℕ, suc, ◌≡◌, refl, Bool, List, [], ◌∷◌, ◌+◌, arith}
use software_prototypes.Machine.{Env, World}
use software_prototypes.Dma.Transfer.{Direction, Channel}
use software_prototypes.Dma.Channel.{
  SetupCall, request_chan, kmalloc_proxy, count_names, kmalloc_names, read_names, kmalloc_channels,
  class_create, alloc_chrdev_region, cdevice_init, create_buffers, create_channel,
}
use software_prototypes.Dma.Probe.{
  Proxy, channel_at, on_channel, direction_of, create_channels, probe_region, probe_class,
  probe_channels, probe_names, dma_proxy_probe,
}
use software_prototypes.Dma.Probe.Resources.{dma_channel, device, class, region, released}
use software_prototypes.Dma.Probe.Create.{create_buffers_frame}

-- The releases of all resources but character devices.
abbrev others : List SetupCall → ℕ
others l = released dma_channel l + released device l + released class l + released region l

module _ (is_err : ℕ → Bool) (e : Env SetupCall) where
  others-cdevice_init :
      (w : World SetupCall Channel) → others (cdevice_init is_err e w).1.log ≡ others w.log
  unfolding cdevice_init released
  others-cdevice_init w = ground arith

  others-create_buffers :
      (d : Direction) (w : World SetupCall Channel)
      → others (create_buffers is_err d e w).1.log ≡ others w.log
  others-create_buffers d w = omega (
    arith,
    (create_buffers_frame is_err e d dma_channel w).3,
    (create_buffers_frame is_err e d device w).3,
    (create_buffers_frame is_err e d class w).3,
    (create_buffers_frame is_err e d region w).3,
  )

  others-create_channel :
      (i : ℕ) (d : Direction) (w : World SetupCall Channel)
      → others (create_channel is_err i d e w).1.log ≡ others w.log
  unfolding create_channel released
  others-create_channel i d w =
      let asked : World SetupCall Channel = record {
        log = request_chan ∷ w.log;
        globals = record w.globals { channel = i; dma_channel = e.value w.log request_chan };
      } in
      ground
        (arith, others-cdevice_init asked, others-create_buffers d (cdevice_init is_err e asked).1)

  others-create_channels :
      (i : ℕ) (names : List (List ℕ)) (w : World SetupCall Proxy)
      → others (create_channels is_err i names e w).1.log ≡ others w.log
  unfolding create_channels
  others-create_channels i [] w = refl
  others-create_channels i (name ∷ names) w =
      let one : World SetupCall Channel = record {
        log = w.log;
        globals = channel_at w.globals i;
      } in
      ground (
        arith,
        others-create_channel i (direction_of name) one,
        others-create_channels (suc i) names
            ((on_channel i (create_channel is_err i (direction_of name)) e w).1),
      )

  others-probe_region :
      (names : List (List ℕ)) (w : World SetupCall Proxy)
      → others (probe_region is_err names e w).1.log ≡ others w.log
  unfolding probe_region released
  others-probe_region names w =
      ground
        (arith, others-create_channels 0 names (record w { log = alloc_chrdev_region ∷ w.log }))

  others-probe_class :
      (names : List (List ℕ)) (w : World SetupCall Proxy)
      → others (probe_class is_err names e w).1.log ≡ others w.log
  unfolding probe_class released
  others-probe_class names w =
      let w' : World SetupCall Proxy = record {
        log = class_create ∷ w.log;
        globals = record w.globals { class = e.value w.log class_create };
      } in
      ground (arith, others-probe_region names w')

  others-probe_names :
      (names : List (List ℕ)) (w : World SetupCall Proxy)
      → others (probe_names is_err names e w).1.log ≡ others w.log
  unfolding probe_names probe_channels released
  others-probe_names names w =
      let l = kmalloc_channels ∷ read_names ∷ kmalloc_names ∷ w.log in
      ground (arith, others-probe_class names (record w { log = l }))

  others-dma_proxy_probe :
      (names : List (List ℕ)) (p : Proxy)
      → others (dma_proxy_probe is_err names e (record { log = []; globals = p })).1.log ≡ 0
  unfolding dma_proxy_probe released
  others-dma_proxy_probe names p =
      let counted : World SetupCall Proxy = record {
        log = count_names ∷ kmalloc_proxy ∷ [];
        globals = record p { channel_count = e.value (kmalloc_proxy ∷ []) count_names };
      } in
      ground (arith, others-probe_names names counted)

  -- On every way out of `dma_proxy_probe`, also with an error: no DMA channel, no device, no class and
  -- no region of device numbers was given back.
  pub probe_gives_nothing_back :
      (names : List (List ℕ)) (p : Proxy)
      → let l = (dma_proxy_probe is_err names e (record { log = []; globals = p })).1.log in
        (released dma_channel l ≡ 0)
        × (released device l ≡ 0)
        × (released class l ≡ 0)
        × (released region l ≡ 0)
  probe_gives_nothing_back names p = omega (arith, others-dma_proxy_probe names p)

-- ===== src/Dma/Probe/Remove.antt =====
-- What `dma_proxy_remove` of linux-user-space-dma/Software/Kernel/dma-proxy.c does when every channel
-- has a device and a DMA channel.
use software_prototypes.Base.{
  ℕ, suc, zero, ◌≡◌, ◌≢◌, refl, ap, ◌∙◌, Bool, List, [], ◌∷◌, ◌+◌, ◌<◌, get_or, set, arith,
}
use software_prototypes.Machine.{Env, World, ok}
use software_prototypes.Dma.Transfer.{Channel}
use software_prototypes.Dma.Channel.{
  SetupCall, class_destroy, unregister_chrdev_region, device_destroy, cdev_del, terminate_all,
  release_channel, cdevice_exit,
}
use software_prototypes.Dma.Probe.{
  Proxy, channel_at, blank_channel, on_channel, exit_devices, release_channels, turns,
  dma_proxy_remove,
}
use software_prototypes.Dma.Probe.Resources.{
  Resource, dma_channel, cdev, device, class, region, acquired, released,
}

-- The numbers and the DMA channels of the driver's channels.
abbrev pub numbers : Proxy → ℕ → ℕ
numbers p i = (channel_at p i).channel

abbrev pub pointers : Proxy → ℕ → ℕ
pointers p i = (channel_at p i).dma_channel

-- The calls for so many devices and channels from one on, newest first.
unfoldable pub exits : (numbers : ℕ → ℕ) (left i : ℕ) → List SetupCall → List SetupCall
exits f zero i l = l
exits f (suc n) i l = exits f n (suc i) (cdev_del (f i) ∷ device_destroy (f i) ∷ l)

unfoldable pub releases : (pointers : ℕ → ℕ) (left i : ℕ) → List SetupCall → List SetupCall
releases f zero i l = l
releases f (suc n) i l = releases f n (suc i) (release_channel (f i) ∷ terminate_all (f i) ∷ l)

-- All calls of the removal of so many channels.
unfoldable pub removal : Proxy → ℕ → List SetupCall → List SetupCall
unfolding exits releases
removal p n l =
    unregister_chrdev_region ∷ class_destroy ∷ releases (pointers p) n 0 (exits (numbers p) n 0 l)

set-get_or : (cs : List Channel) (i : ℕ) (d : Channel) → set cs i (get_or cs i d) ≡ cs
set-get_or [] i d = refl
set-get_or (c ∷ cs) zero d = refl
set-get_or (c ∷ cs) (suc i) d = ap (λ l. c ∷ l) (set-get_or cs i d)

module _ (is_err : ℕ → Bool) (e : Env SetupCall) where
  exit_device :
      (i : ℕ) (w : World SetupCall Proxy)
      → (channel_at w.globals i).proxy_device ≢ 0
      → on_channel i (cdevice_exit is_err) e w ≡ (
        ok tt,
        record w {
          log = cdev_del (numbers w.globals i) ∷ device_destroy (numbers w.globals i) ∷ w.log;
        },
      )
  unfolding cdevice_exit
  exit_device i w h = ground (arith, h, set-get_or w.globals.channels i blank_channel)

  exit_devices_lem :
      (n i : ℕ) (w : World SetupCall Proxy)
      → ((j : ℕ) → j < i + n → (channel_at w.globals j).proxy_device ≢ 0)
      → exit_devices is_err n i e w
        ≡ (ok tt, record w { log = exits (numbers w.globals) n i w.log })
  unfolding exit_devices exits
  exit_devices_lem zero i w h = refl
  exit_devices_lem (suc n) i w h =
      let k = numbers w.globals i in
      let w' = record w { log = cdev_del k ∷ device_destroy k ∷ w.log } in
      ground (
        arith,
        h i (omega arith),
        exit_device i w (h i (omega arith)),
        exit_devices_lem n (suc i) w' (λ j l. h j (omega (arith, l))),
      )

  release_channels_lem :
      (n i : ℕ) (w : World SetupCall Proxy)
      → ((j : ℕ) → j < i + n → (channel_at w.globals j).dma_channel ≢ 0)
      → release_channels is_err n i e w
        ≡ (ok tt, record w { log = releases (pointers w.globals) n i w.log })
  unfolding release_channels releases
  release_channels_lem zero i w h = refl
  release_channels_lem (suc n) i w h =
      let k = pointers w.globals i in
      let w' = record w { log = release_channel k ∷ terminate_all k ∷ w.log } in
      ground (
        arith,
        h i (omega arith),
        release_channels_lem n (suc i) w' (λ j l. h j (omega (arith, l))),
      )

  pub dma_proxy_remove_lem :
      (n : ℕ) (w : World SetupCall Proxy)
      → turns is_err w.globals.channel_count ≡ n
      → ((j : ℕ) → j < n → (channel_at w.globals j).proxy_device ≢ 0)
      → ((j : ℕ) → j < n → (channel_at w.globals j).dma_channel ≢ 0)
      → dma_proxy_remove is_err e w ≡ (ok tt, record w { log = removal w.globals n w.log })
  unfolding dma_proxy_remove removal
  dma_proxy_remove_lem n w t d c = ground (
    arith,
    t,
    exit_devices_lem n 0 w (λ j l. d j (omega (arith, l))),
    release_channels_lem n 0 (record w { log = exits (numbers w.globals) n 0 w.log })
        (λ j l. c j (omega (arith, l))),
  )

  -- The calls of the removal acquire nothing.
  acquired-lost :
      (r : Resource) (i j : ℕ) (l : List SetupCall)
      → (acquired is_err e r (cdev_del i ∷ device_destroy j ∷ l) ≡ acquired is_err e r l)
        × (acquired is_err e r (release_channel i ∷ terminate_all j ∷ l) ≡ acquired is_err e r l)
        × (acquired is_err e r (unregister_chrdev_region ∷ class_destroy ∷ l)
            ≡ acquired is_err e r l)
  unfolding acquired
  acquired-lost dma_channel i j l = omega arith
  acquired-lost cdev i j l = omega arith
  acquired-lost device i j l = omega arith
  acquired-lost class i j l = omega arith
  acquired-lost region i j l = omega arith

  acquired-exits :
      (r : Resource) (f : ℕ → ℕ) (n i : ℕ) (l : List SetupCall)
      → acquired is_err e r (exits f n i l) ≡ acquired is_err e r l
  unfolding exits
  acquired-exits r f zero i l = refl
  acquired-exits r f (suc n) i l =
      acquired-exits r f n (suc i) (cdev_del (f i) ∷ device_destroy (f i) ∷ l)
      ∙ (acquired-lost r (f i) (f i) l).0

  acquired-releases :
      (r : Resource) (f : ℕ → ℕ) (n i : ℕ) (l : List SetupCall)
      → acquired is_err e r (releases f n i l) ≡ acquired is_err e r l
  unfolding releases
  acquired-releases r f zero i l = refl
  acquired-releases r f (suc n) i l =
      acquired-releases r f n (suc i) (release_channel (f i) ∷ terminate_all (f i) ∷ l)
      ∙ (acquired-lost r (f i) (f i) l).1

  pub acquired-removal :
      (r : Resource) (p : Proxy) (n : ℕ) (l : List SetupCall)
      → acquired is_err e r (removal p n l) ≡ acquired is_err e r l
  unfolding removal
  acquired-removal r p n l =
      let k = exits (numbers p) n 0 l in
      (acquired-lost r 0 0 (releases (pointers p) n 0 k)).2
      ∙ acquired-releases r (pointers p) n 0 k
      ∙ acquired-exits r (numbers p) n 0 l

-- How many of a resource the removal of n channels gives back: with its devices, with its DMA channels,
-- and at its end.
abbrev pub owed : Resource → ℕ → ℕ
owed dma_channel n = n
owed cdev n = n
owed device n = n
owed class n = 1
owed region n = 1

released-exits :
    (f : ℕ → ℕ) (n i : ℕ) (l : List SetupCall)
    → (released dma_channel (exits f n i l) ≡ released dma_channel l)
      × (released cdev (exits f n i l) ≡ n + released cdev l)
      × (released device (exits f n i l) ≡ n + released device l)
      × (released class (exits f n i l) ≡ released class l)
      × (released region (exits f n i l) ≡ released region l)
unfolding exits released
released-exits f zero i l = omega arith
released-exits f (suc n) i l =
    ground (arith, released-exits f n (suc i) (cdev_del (f i) ∷ device_destroy (f i) ∷ l))

released-releases :
    (f : ℕ → ℕ) (n i : ℕ) (l : List SetupCall)
    → (released dma_channel (releases f n i l) ≡ n + released dma_channel l)
      × (released cdev (releases f n i l) ≡ released cdev l)
      × (released device (releases f n i l) ≡ released device l)
      × (released class (releases f n i l) ≡ released class l)
      × (released region (releases f n i l) ≡ released region l)
unfolding releases released
released-releases f zero i l = omega arith
released-releases f (suc n) i l =
    ground (arith, released-releases f n (suc i) (release_channel (f i) ∷ terminate_all (f i) ∷ l))

pub released-removal :
    (r : Resource) (p : Proxy) (n : ℕ) (l : List SetupCall)
    → released r (removal p n l) ≡ owed r n + released r l
unfolding removal released
released-removal dma_channel p n l = ground (
  arith,
  released-exits (numbers p) n 0 l,
  released-releases (pointers p) n 0 (exits (numbers p) n 0 l),
)
released-removal cdev p n l = ground (
  arith,
  released-exits (numbers p) n 0 l,
  released-releases (pointers p) n 0 (exits (numbers p) n 0 l),
)
released-removal device p n l = ground (
  arith,
  released-exits (numbers p) n 0 l,
  released-releases (pointers p) n 0 (exits (numbers p) n 0 l),
)
released-removal class p n l = ground (
  arith,
  released-exits (numbers p) n 0 l,
  released-releases (pointers p) n 0 (exits (numbers p) n 0 l),
)
released-removal region p n l = ground (
  arith,
  released-exits (numbers p) n 0 l,
  released-releases (pointers p) n 0 (exits (numbers p) n 0 l),
)

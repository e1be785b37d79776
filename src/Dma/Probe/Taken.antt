-- ===== src/Dma/Probe/Taken.antt =====
-- Which resources `dma_proxy_remove` of linux-user-space-dma/Software/Kernel/dma-proxy.c gives back.
use software_prototypes.Base.{ℕ, suc, zero, ◌≡◌, refl, ap, ◌∙◌, Bool, List, [], ◌∷◌, ◌+◌, arith}
use software_prototypes.Machine.{Env}
use software_prototypes.Dma.Channel.{
  SetupCall, class_destroy, unregister_chrdev_region, device_destroy, cdev_del, terminate_all,
  release_channel,
}
use software_prototypes.Dma.Probe.{Proxy}
use software_prototypes.Dma.Probe.Resources.{
  Resource, dma_channel, cdev, device, class, region, given, taken, down,
}
use software_prototypes.Dma.Probe.Remove.{numbers, pointers, exits, releases, removal}

-- The removal of n channels gives back, last one first, each character device and device by the number
-- of its channel, and each DMA channel by its pointer.
taken-exits :
    (f : ℕ → ℕ) (n i : ℕ) (l : List SetupCall)
    → (taken dma_channel (exits f n i l) ≡ taken dma_channel l)
      × (taken cdev l ≡ down f i → taken cdev (exits f n i l) ≡ down f (i + n))
      × (taken device l ≡ down f i → taken device (exits f n i l) ≡ down f (i + n))
unfolding exits taken down
taken-exits f zero i l = let same : i + 0 ≡ i = omega arith in rw same (refl, λ h. h, λ h. h)
taken-exits f (suc n) i l =
    let same : i + suc n ≡ suc i + n = omega arith in
    let (a, b, c) = taken-exits f n (suc i) (cdev_del (f i) ∷ device_destroy (f i) ∷ l) in
    rw same (a, λ h. b (ap (λ k. f i ∷ k) h), λ h. c (ap (λ k. f i ∷ k) h))

taken-releases :
    (f : ℕ → ℕ) (n i : ℕ) (l : List SetupCall)
    → (taken dma_channel l ≡ down f i → taken dma_channel (releases f n i l) ≡ down f (i + n))
      × (taken cdev (releases f n i l) ≡ taken cdev l)
      × (taken device (releases f n i l) ≡ taken device l)
unfolding releases taken down
taken-releases f zero i l = let same : i + 0 ≡ i = omega arith in rw same (λ h. h, refl, refl)
taken-releases f (suc n) i l =
    let same : i + suc n ≡ suc i + n = omega arith in
    let (a, b, c) = taken-releases f n (suc i) (release_channel (f i) ∷ terminate_all (f i) ∷ l) in
    rw same (λ h. a (ap (λ k. f i ∷ k) h), b, c)

pub taken-removal :
    (p : Proxy) (n : ℕ) (l : List SetupCall)
    → ((r : Resource) → taken r l ≡ [])
    → (taken dma_channel (removal p n l) ≡ down (pointers p) n)
      × (taken cdev (removal p n l) ≡ down (numbers p) n)
      × (taken device (removal p n l) ≡ down (numbers p) n)
unfolding removal taken down
taken-removal p n l h =
    let k = exits (numbers p) n 0 l in
    let (a, b, c) = taken-exits (numbers p) n 0 l in
    let (x, y, z) = taken-releases (pointers p) n 0 k in
    let none : 0 + n ≡ n = omega arith in
    (
      x (a ∙ h dma_channel) ∙ ap (down (pointers p)) none,
      y ∙ b (h cdev) ∙ ap (down (numbers p)) none,
      z ∙ c (h device) ∙ ap (down (numbers p)) none,
    )

-- The removal acquires none.
module _ (is_err : ℕ → Bool) (e : Env SetupCall) where
  given-lost :
      (r : Resource) (i j : ℕ) (l : List SetupCall)
      → (given is_err e r (cdev_del i ∷ device_destroy j ∷ l) ≡ given is_err e r l)
        × (given is_err e r (release_channel i ∷ terminate_all j ∷ l) ≡ given is_err e r l)
        × (given is_err e r (unregister_chrdev_region ∷ class_destroy ∷ l) ≡ given is_err e r l)
  unfolding given
  given-lost dma_channel i j l = (refl, refl, refl)
  given-lost cdev i j l = (refl, refl, refl)
  given-lost device i j l = (refl, refl, refl)
  given-lost class i j l = (refl, refl, refl)
  given-lost region i j l = (refl, refl, refl)

  given-exits :
      (r : Resource) (f : ℕ → ℕ) (n i : ℕ) (l : List SetupCall)
      → given is_err e r (exits f n i l) ≡ given is_err e r l
  unfolding exits
  given-exits r f zero i l = refl
  given-exits r f (suc n) i l =
      given-exits r f n (suc i) (cdev_del (f i) ∷ device_destroy (f i) ∷ l)
      ∙ (given-lost r (f i) (f i) l).0

  given-releases :
      (r : Resource) (f : ℕ → ℕ) (n i : ℕ) (l : List SetupCall)
      → given is_err e r (releases f n i l) ≡ given is_err e r l
  unfolding releases
  given-releases r f zero i l = refl
  given-releases r f (suc n) i l =
      given-releases r f n (suc i) (release_channel (f i) ∷ terminate_all (f i) ∷ l)
      ∙ (given-lost r (f i) (f i) l).1

  pub given-removal :
      (r : Resource) (p : Proxy) (n : ℕ) (l : List SetupCall)
      → given is_err e r (removal p n l) ≡ given is_err e r l
  unfolding removal
  given-removal r p n l =
      let k = exits (numbers p) n 0 l in
      (given-lost r 0 0 (releases (pointers p) n 0 k)).2
      ∙ given-releases r (pointers p) n 0 k
      ∙ given-exits r (numbers p) n 0 l

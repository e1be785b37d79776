-- ===== src/Dma/Probe/Resources.antt =====
-- What the driver of linux-user-space-dma/Software/Kernel/dma-proxy.c holds of the kernel, by the log of
-- its calls and what they answered.
use software_prototypes.Base.{
  zero, suc, refl, ◌≡◌, ◌<◌, ◌++◌, arith, ℕ, ◌+◌, Bool, List, [], ◌∷◌, ◌==◌, if◌then◌else◌,
}
use software_prototypes.Machine.{Env}
use software_prototypes.Dma.Channel.{
  SetupCall, request_chan, cdev_add, cdev_del, device_create, device_destroy, class_create,
  class_destroy, alloc_chrdev_region, unregister_chrdev_region, release_channel, is_err_or_null,
}

-- DMA channels, character devices, devices, classes and regions of device numbers.
pub data Resource : Type 0 where
  dma_channel cdev device class region : Resource

module _ (is_err : ℕ → Bool) (e : Env SetupCall) where
  abbrev pub if_pointer : ℕ → ℕ
  if_pointer p = if is_err_or_null is_err p then 0 else 1

  abbrev pub if_zero : ℕ → ℕ
  if_zero rc = if rc == 0 then 1 else 0

  -- How many a call gives, and takes back.
  unfoldable pub gains : Resource → SetupCall → List SetupCall → ℕ
  gains dma_channel request_chan l = if_pointer (e.value l request_chan)
  gains cdev (cdev_add i) l = if_zero (e.value l (cdev_add i))
  gains device (device_create i) l = if_pointer (e.value l (device_create i))
  gains class class_create l = if_pointer (e.value l class_create)
  gains region alloc_chrdev_region l = if_zero (e.value l alloc_chrdev_region)
  gains r c l = 0

  unfoldable pub acquired : Resource → List SetupCall → ℕ
  unfolding gains
  acquired r [] = 0
  acquired r (c ∷ l) = gains r c l + acquired r l

  -- Which ones a log has acquired, newest first: a DMA channel by its pointer, a character device and a
  -- device by the number of its channel.
  unfoldable pub gained : Resource → SetupCall → List SetupCall → List ℕ
  gained dma_channel request_chan l =
      let p = e.value l request_chan in if is_err_or_null is_err p then [] else p ∷ []
  gained cdev (cdev_add i) l = if e.value l (cdev_add i) == 0 then i ∷ [] else []
  gained device (device_create i) l =
      if is_err_or_null is_err (e.value l (device_create i)) then [] else i ∷ []
  gained r c l = []

  unfoldable pub given : Resource → List SetupCall → List ℕ
  unfolding gained
  given r [] = []
  given r (c ∷ l) = gained r c l ++ given r l

-- And which ones it has given back.
unfoldable pub lost : Resource → SetupCall → List ℕ
lost dma_channel (release_channel p) = p ∷ []
lost cdev (cdev_del i) = i ∷ []
lost device (device_destroy i) = i ∷ []
lost r c = []

unfoldable pub taken : Resource → List SetupCall → List ℕ
unfolding lost
taken r [] = []
taken r (c ∷ l) = lost r c ++ taken r l

-- The values at the numbers below n, the last one first.
unfoldable pub down : (ℕ → ℕ) → (n : ℕ) → List ℕ
down f zero = []
down f (suc n) = f n ∷ down f n

pub down_ext : (f g : ℕ → ℕ) (n : ℕ) → ((j : ℕ) → j < n → f j ≡ g j) → down f n ≡ down g n
unfolding down
down_ext f g zero h = refl
down_ext f g (suc n) h =
    ground (arith, h n (omega arith), down_ext f g n (λ j l. h j (omega (arith, l))))

unfoldable pub loses : Resource → SetupCall → ℕ
loses dma_channel (release_channel p) = 1
loses cdev (cdev_del i) = 1
loses device (device_destroy i) = 1
loses class class_destroy = 1
loses region unregister_chrdev_region = 1
loses r c = 0

unfoldable pub released : Resource → List SetupCall → ℕ
unfolding loses
released r [] = 0
released r (c ∷ l) = loses r c + released r l

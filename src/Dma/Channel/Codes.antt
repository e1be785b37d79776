-- ===== src/Dma/Channel/Codes.antt =====
-- The return codes of a channel's set-up, and what its tear-down undoes.
use software_prototypes.Base.{
  ℕ, suc, ◌≡◌, ◌≢◌, ◌↔◌, Bool, false, List, [], ◌∷◌, ◌==◌, ◌+◌, if◌then◌else◌, arith,
}
use software_prototypes.Machine.{Env, World, ok, ◌>>◌}
use software_prototypes.Dma.Transfer.{Channel}
use software_prototypes.Dma.Channel.{
  SetupCall, cdev_init, cdev_add, device_create, cdev_del, Code, zero_code, plus_enomem, callee,
  is_err_or_null, cdevice_init, cdevice_exit,
}

-- How often the character device was deleted.
unfoldable pub deletions : List SetupCall → ℕ
deletions [] = 0
deletions (cdev_del i ∷ l) = suc (deletions l)
deletions (c ∷ l) = deletions l

module _ (is_err : ℕ → Bool) (e : Env SetupCall) (w : World SetupCall Channel) where
  -- What `cdev_add` returned, and then `device_create`.
  abbrev pub added : ℕ
  added = e.value (cdev_init ∷ w.log) (cdev_add w.globals.channel)

  abbrev pub created : ℕ
  created = let i = w.globals.channel in e.value (cdev_add i ∷ cdev_init ∷ w.log) (device_create i)

  abbrev code : (rc device : ℕ) → Code
  code rc device =
      if rc == 0
      then if device == 0 then plus_enomem else if is_err device then callee device else zero_code
      else callee rc

  cdevice_init-code : (cdevice_init is_err e w).0 ≡ ok (code added created)
  unfolding cdevice_init is_err_or_null
  cdevice_init-code = ground arith

  code_zero :
      (rc device : ℕ)
      → (ok (code rc device) ≡ ok zero_code) ↔ ((rc ≡ 0) × (device ≢ 0) × (is_err device ≡ false))
  code_zero rc device = ground arith

  code_positive :
      (rc device : ℕ) → (ok (code rc device) ≡ ok plus_enomem) ↔ ((rc ≡ 0) × (device ≡ 0))
  code_positive rc device = ground arith

  -- `cdevice_init` returns 0 exactly when the device is added and created, and it returns the
  -- positive ENOMEM exactly when it is added and its creation gives NULL.
  pub cdevice_init_iff :
      (((cdevice_init is_err e w).0 ≡ ok zero_code)
        ↔ ((added ≡ 0) × (created ≢ 0) × (is_err created ≡ false)))
      × (((cdevice_init is_err e w).0 ≡ ok plus_enomem) ↔ ((added ≡ 0) × (created ≡ 0)))
  cdevice_init_iff = rw cdevice_init-code (code_zero added created, code_positive added created)

  -- `cdevice_exit` behind `cdevice_init` has the character device deleted once if the device was
  -- created or its creation gave NULL, twice if its creation gave an error pointer, and, if the
  -- device could not be added, once or never as the pointer to it was set before.
  pub cdevice_exit-deletions :
      deletions ((cdevice_init is_err >> cdevice_exit is_err) e w).1.log
      ≡ deletions w.log
        + (if added == 0
            then if created == 0 then 1 else if is_err created then 2 else 1
            else if w.globals.proxy_device == 0
            then 0
            else 1)
  unfolding cdevice_init cdevice_exit deletions
  cdevice_exit-deletions = ground arith

-- ===== src/Plm/A72/Devices.antt =====
-- The devices of plm-r5-a72-ipi/a72-linux/libmetal-linux-ipi-demo.c on the ways out of its set-up.
use software_prototypes.Base.{ℕ, ◌≡◌, ◌⊎◌, false, [], ◌∷◌, arith}
use software_prototypes.Machine.{Env, World, ok}
use software_prototypes.Metal.{
  Device, ipi, ipi_buf, MetalCall, device_open, io_region, opens, closes,
}
use software_prototypes.Plm.A72.{Pointers, zero_code, callee, minus_enodev, init_ipi, deinit_ipi}

abbrev pub unset : World MetalCall Pointers
unset = record {
  log = [];
  globals = record { ipi_dev = false; ipi_io = false; ipi_buf_dev = false; ipi_io_buffer = false };
}

module _ (e : Env MetalCall) where
  -- What `io_region` answers for the buffers, and for the registers.
  abbrev pub buffer_region : ℕ
  buffer_region = e.value (device_open ipi_buf ∷ []) (io_region ipi_buf)

  abbrev pub register_region : ℕ
  register_region =
      e.value (device_open ipi ∷ io_region ipi_buf ∷ device_open ipi_buf ∷ []) (io_region ipi)

  -- `init_ipi` and then the way out of `main`: whatever the calls answer, each device is closed as often
  -- as it was opened with success, except where a region could not be mapped: then the devices that
  -- `init_ipi` has open are closed twice.
  pub init_ipi-deinit_ipi :
      let (r, w) = init_ipi e unset in
      let l = (deinit_ipi e w).1.log in
      let balanced = λ (d : Device). closes d l ≡ opens e d l in
      let twice = λ (d : Device). (opens e d l ≡ 1) × (closes d l ≡ 2) in
      ((r ≡ ok zero_code) × balanced ipi × balanced ipi_buf)
      ⊎ ((r ≡ ok callee) × balanced ipi × balanced ipi_buf)
      ⊎ ((r ≡ ok minus_enodev) × (buffer_region ≡ 0) × balanced ipi × twice ipi_buf)
      ⊎ ((r ≡ ok minus_enodev) × (register_region ≡ 0) × twice ipi × twice ipi_buf)
  unfolding init_ipi deinit_ipi opens closes
  init_ipi-deinit_ipi = ground arith

-- ===== src/Fsbl/Load/Returns.antt =====
-- A run of `LoadBootImage` of zynq-7000-tips-tricks/fsbl/image_mover.c comes to an end.
use software_prototypes.Base.{true, false, ℕ, suc, ◌≡◌, ◌⊎◌, inl, inr, refl, arith}
use software_prototypes.Machine.{
  Env, World, Outcome, ok, stop, hang, fault, is_settled, success, failure, logged, Status,
}
use software_prototypes.Machine.Laws.{>>=-settled}
use software_prototypes.Fsbl.System.{Config, Globals, Call, set_ppk}
use software_prototypes.Fsbl.Image.{get_partition_header_info, get_n_auth_image_header}
use software_prototypes.Fsbl.Load.{
  image_start_address, efuse_status, rsa_setup, load_boot_image, load_partitions, after_setup,
  set_up, read_headers, boot_from, first_partition,
}
use software_prototypes.Fsbl.Load.Loop.{load_loop-returns}

module _ (c : Config) (e : Env Call) where
  image_start-returns : (w : World Call Globals) → is_settled (image_start_address c e w).0 ≡ true
  unfolding image_start_address
  image_start-returns w = ground arith

  header_info-returns :
      (base : ℕ) (w : World Call Globals)
      → is_settled (get_partition_header_info c base e w).0 ≡ true
  unfolding get_partition_header_info
  header_info-returns base w = ground arith

  read_headers-returns :
      (base : ℕ) (w : World Call Globals) → is_settled (read_headers c base e w).0 ≡ true
  unfolding read_headers
  read_headers-returns base w = ground (arith, header_info-returns base w)

  efuse_status-returns :
      (base : ℕ) (w : World Call Globals) → is_settled (efuse_status c base e w).0 ≡ true
  unfolding efuse_status
  efuse_status-returns base w = ground arith

  auth_header-returns :
      (base : ℕ) (w : World Call Globals) → is_settled (get_n_auth_image_header c base e w).0 ≡ true
  unfolding get_n_auth_image_header
  auth_header-returns base w = ground arith

  rsa_setup-returns :
      (base : ℕ) (w : World Call Globals) → is_settled (rsa_setup c base e w).0 ≡ true
  unfolding rsa_setup
  rsa_setup-returns base w =
      let w' = (efuse_status c base e w).1 in
      ground (arith, efuse_status-returns base w, auth_header-returns base (logged set_ppk w'))

  load_partitions-returns :
      (base : ℕ) (w : World Call Globals) → is_settled (load_partitions c base e w).0 ≡ true
  unfolding load_partitions
  load_partitions-returns base w =
      load_loop-returns c e (suc w.globals.partition_count) base (first_partition c) _ w
        (omega arith)

  after_setup-returns :
      (base : ℕ) (s : Status) (w : World Call Globals)
      → is_settled (after_setup c base s e w).0 ≡ true
  unfolding after_setup
  after_setup-returns base success w = load_partitions-returns base w
  after_setup-returns base failure w = refl

  set_up-returns : (base : ℕ) (w : World Call Globals) → is_settled (set_up c base e w).0 ≡ true
  unfolding set_up
  set_up-returns base w =
      >>=-settled e (rsa_setup c base) (after_setup c base) w (rsa_setup-returns base w)
        λ s. after_setup-returns base s _

  boot_from-returns :
      (base : ℕ) (w : World Call Globals) → is_settled (boot_from c base e w).0 ≡ true
  unfolding boot_from
  boot_from-returns base w =
      >>=-settled e (read_headers c base) (λ _. set_up c base) w (read_headers-returns base w)
        λ _. set_up-returns base _

  load_boot_image_settled : (w : World Call Globals) → is_settled (load_boot_image c e w).0 ≡ true
  unfolding load_boot_image
  load_boot_image_settled w =
      let start = record w {
        globals = record w.globals { bitstream = false; application = false };
      } in
      >>=-settled e (image_start_address c) (boot_from c) start (image_start-returns start)
        λ base. boot_from-returns base _

  settled_cases : (r : Outcome ℕ) → is_settled r ≡ true → ((a : ℕ) × (r ≡ ok a)) ⊎ (r ≡ stop)
  settled_cases (ok a) h = inl (a, refl)
  settled_cases stop h = inr refl
  settled_cases hang h = cc
  settled_cases fault h = cc

  -- However the calls answer, `LoadBootImage` returns an address or hands control to the fallback: the
  -- loop over the partitions ends within the rounds that it is given, one more than their number.
  pub load_boot_image_returns :
      (w : World Call Globals)
      → let r = (load_boot_image c e w).0 in ((a : ℕ) × (r ≡ ok a)) ⊎ (r ≡ stop)
  load_boot_image_returns w = settled_cases (load_boot_image c e w).0 (load_boot_image_settled w)

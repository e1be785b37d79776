-- ===== src/Dma/Tests.antt =====
-- Runs of the DMA proxy on a channel of which every call succeeds.
use software_prototypes.Base.{
  List, ◌==◌, ℕ, ◌≡◌, ◌≢◌, ◌↔◌, true, false, [], ◌∷◌, refl, replicate, length, ◌<◌, ◌≤◌, ◌+◌, ◌*◌,
  arith,
}
use software_prototypes.Machine.{success, Env, World, ok, fault, ◌>>◌}
use software_prototypes.Dma.Shared.{
  busy, xfer, start_xfer, buffer_count, buffer_size, channel_buffer_size,
}
use software_prototypes.Dma.Transfer.{
  Channel, Call, Kernel, mem_to_dev, dev_to_mem, blank_bd, blank_buffer, bd_at, buffer_at, ioctl,
  zero_rc, start_transfer, prep_slave_sg, set_callback, init_completion, dmaengine_submit,
  issue_pending,
}
use software_prototypes.Dma.Transfer.Bounds.{ioctl_faults_iff}
use software_prototypes.Dma.Transfer.Outcome.{ioctl_settles, start_transfer_effect}
use software_prototypes.Dma.Channel.{
  SetupCall, zero_code, create_channel, create_buffers, cdevice_init, cdevice_exit,
}
use software_prototypes.Dma.Channel.Handles.{create_channel_handles}
use software_prototypes.Dma.Channel.Codes.{cdevice_exit-deletions, deletions}
use software_prototypes.Dma.Threads.{ThreadCall, rx_thread, tx_thread}
use software_prototypes.Dma.Threads.Receive.{rx_thread_done, starts, finishes, InTurn, fresh}
use software_prototypes.Dma.Threads.Transmit.{tx_thread_done}
use software_prototypes.Dma.Shared.{rx_buffer_count, tx_buffer_count}
use software_prototypes.Dma.Threads.Driver.{within, drive, threads_drive}
use software_prototypes.Dma.Probe.{
  Proxy, blank_channel, dma_proxy_probe, dma_proxy_remove, probe_names, probe_channels, probe_class,
  probe_region, create_channels,
}
use software_prototypes.Dma.Probe.Resources.{
  Resource, dma_channel, cdev, device, class, region, acquired, released, given, taken,
}
use software_prototypes.Dma.Probe.Remove.{owed}
use software_prototypes.Dma.Probe.Balance.{probe_remove_balance}
use software_prototypes.Dma.Probe.Leak.{probe_gives_nothing_back}

abbrev kernel : Kernel
kernel = record { submit_error = λ _. false; dma_complete = 0 }

abbrev channel : Channel
channel = record {
  buffers = replicate buffer_count blank_buffer;
  buffer_phys_addr = 4096;
  bds = replicate buffer_count blank_bd;
  direction = mem_to_dev;
  bdindex = 0;
  channel = 0;
  proxy_device = 7;
  dma_channel = 9;
}

-- User space passes this index; no descriptor is had for it.
abbrev env : ℕ → Env Call
env i = record { status = λ _ _. success; value = λ _ _. 0; words = λ _ _. i ∷ [] }

abbrev world : World Call Channel
world = record { log = []; globals = channel }

abbrev ready : Env Call
ready = record { status = λ _ _. success; value = λ _ _. 5; words = λ _ _. 3 ∷ [] }

abbrev setup_env : Env SetupCall
setup_env = record {
  status = λ _ _. success;
  value = λ _ c. elim c [ SetupCall.cdev_add i ↦ 0 | _ ↦ 64 ];
  words = λ _ _. [];
}

abbrev setup_world : World SetupCall Channel
setup_world = record { log = []; globals = channel }

abbrev thread_env : Env ThreadCall
thread_env = record { status = λ _ _. success; value = λ _ _. 1; words = λ _ _. [] }

-- The index 32 is out of bounds.
ioctl_faults_iff_example :
    ((ioctl kernel start_xfer (env 32) world).0 ≡ fault)
    ↔ ((success ≡ success) × Unit {0} × (32 ≤ 32))
ioctl_faults_iff_example = ioctl_faults_iff kernel (env 32) start_xfer world

ioctl_settles_example :
    let (r, w) = ioctl kernel xfer (env 3) world in
    (r ≡ ok zero_rc)
    × ((buffer_at w.globals 3).status ≢ busy)
    × ((buffer_at w.globals 3).length ≡ 0)
    × ((j : ℕ) → j ≢ 3 → buffer_at w.globals j ≡ buffer_at channel j)
ioctl_settles_example = ioctl_settles kernel (env 3) xfer world tt refl (omega arith) refl

start_transfer_effect_example :
    ((start_transfer kernel ready world).1).log
    ≡ issue_pending
      ∷ dmaengine_submit
      ∷ init_completion 0
      ∷ set_callback 0
      ∷ prep_slave_sg 0 0 mem_to_dev
      ∷ []
start_transfer_effect_example = start_transfer_effect kernel ready world (omega arith) refl

create_channel_succeeds :
    (create_channel (λ _. false) 0 dev_to_mem setup_env setup_world).0 ≡ ok zero_code
unfolding create_channel cdevice_init create_buffers
create_channel_succeeds = refl

create_channel_handles_example :
    let ch = ((create_channel (λ _. false) 0 dev_to_mem setup_env setup_world).1).globals in
    (ch.bdindex ≡ 0)
    × (length ch.buffers ≡ buffer_count)
    × (length ch.bds ≡ buffer_count)
    × ((i : ℕ)
        → i < buffer_count
        → ((bd_at ch i).dma_handle ≡ ch.buffer_phys_addr + channel_buffer_size * i)
          × ((bd_at ch i).dma_handle + buffer_size
              ≤ ch.buffer_phys_addr + channel_buffer_size * buffer_count)
          × ((j : ℕ)
              → i < j
              → j < buffer_count
              → (bd_at ch i).dma_handle + buffer_size ≤ (bd_at ch j).dma_handle))
create_channel_handles_example =
    create_channel_handles (λ _. false) dev_to_mem setup_env 0 setup_world refl
      create_channel_succeeds

rx_thread_done_example :
    let (r, w) = rx_thread 40 thread_env (fresh 40) in
    (r ≡ ok tt) × (starts w.log ≡ 40) × (finishes w.log ≡ 40) × InTurn w.log
rx_thread_done_example = rx_thread_done thread_env 40 40 (λ _ _. refl) (omega arith)

tx_thread_done_example :
    let (r, w) = tx_thread true 40 thread_env (fresh 5) in
    (r ≡ ok tt) × (starts w.log ≡ finishes w.log) × (finishes w.log ≤ 36)
tx_thread_done_example = tx_thread_done true thread_env 40 5 (omega arith)

-- The creation of the device gives an error pointer.
cdevice_exit-deletions_example :
    deletions ((cdevice_init (λ _. true) >> cdevice_exit (λ _. true)) setup_env setup_world).1.log
    ≡ 2
unfolding deletions
cdevice_exit-deletions_example = cdevice_exit-deletions (λ _. true) setup_env setup_world

-- `stop` reads as 0.
abbrev unstopped_env : Env ThreadCall
unstopped_env = record { status = λ _ _. success; value = λ _ _. 0; words = λ _ _. [] }

-- One channel, "rx", for which every call succeeds.
abbrev names : List (List ℕ)
names = (b'r' ∷ b'x' ∷ []) ∷ []

abbrev proxy : Proxy
proxy = record { channels = blank_channel ∷ []; channel_count = 0; class = 0 }

abbrev probe_env : Env SetupCall
probe_env = record {
  status = λ _ _. success;
  value = λ _ c. elim c [
    | SetupCall.cdev_add i ↦ 0
    | SetupCall.alloc_chrdev_region ↦ 0
    | SetupCall.read_names ↦ 0
    | SetupCall.count_names ↦ 1
    | _ ↦ 64
  ];
  words = λ _ _. [];
}

abbrev probe_world : World SetupCall Proxy
probe_world = record { log = []; globals = proxy }

probe_succeeds : (dma_proxy_probe (λ _. false) names probe_env probe_world).0 ≡ ok zero_code
unfolding dma_proxy_probe probe_names probe_channels probe_class probe_region create_channels
    create_channel cdevice_init create_buffers
probe_succeeds = refl

probe_remove_balance_example :
    let (r, w) =
      dma_proxy_remove
        (λ _. false)
        probe_env
        (dma_proxy_probe (λ _. false) names probe_env probe_world).1 in
    (r ≡ ok tt)
    × ((x : Resource)
        → (acquired (λ _. false) probe_env x w.log ≡ owed x 1) × (released x w.log ≡ owed x 1))
    × (taken dma_channel w.log ≡ given (λ _. false) probe_env dma_channel w.log)
    × (taken cdev w.log ≡ given (λ _. false) probe_env cdev w.log)
    × (taken device w.log ≡ given (λ _. false) probe_env device w.log)
probe_remove_balance_example =
    probe_remove_balance (λ _. false) probe_env names proxy refl refl refl probe_succeeds

probe_gives_nothing_back_example :
    let l = (dma_proxy_probe (λ p. p == 63) names probe_env probe_world).1.log in
    (released dma_channel l ≡ 0)
    × (released device l ≡ 0)
    × (released class l ≡ 0)
    × (released region l ≡ 0)
probe_gives_nothing_back_example = probe_gives_nothing_back (λ p. p == 63) probe_env names proxy

threads_drive_example :
    let received = (rx_thread 40 thread_env (fresh 40)).1.log in
    let sent = (tx_thread true 40 thread_env (fresh 40)).1.log in
    ((within rx_buffer_count received ≡ true) × ((drive kernel received ready world).0 ≡ ok tt))
    × ((within tx_buffer_count sent ≡ true) × ((drive kernel sent ready world).0 ≡ ok tt))
threads_drive_example = threads_drive kernel ready thread_env true 40 40 world

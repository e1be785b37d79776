-- ===== src/Dma/SelfTest/Tests.antt =====
-- The internal test on two channels of which every call succeeds.
use software_prototypes.Base.{◌≡◌, refl, false, [], replicate}
use software_prototypes.Machine.{success, Env, World, ok}
use software_prototypes.Dma.Shared.{buffer_count}
use software_prototypes.Dma.Transfer.{
  Channel, Call, Kernel, mem_to_dev, dev_to_mem, blank_bd, blank_buffer,
}
use software_prototypes.Dma.SelfTest.{Pair, in_progress, test}
use software_prototypes.Dma.SelfTest.Settles.{Settled, test_settles}

abbrev kernel : Kernel
kernel = record { submit_error = λ _. false; dma_complete = 0 }

abbrev env : Env Call
env = record { status = λ _ _. success; value = λ _ _. 5; words = λ _ _. [] }

abbrev sender : Channel
sender = record {
  buffers = replicate buffer_count blank_buffer;
  buffer_phys_addr = 4096;
  bds = replicate buffer_count blank_bd;
  direction = mem_to_dev;
  bdindex = 3;
  channel = 0;
  proxy_device = 7;
  dma_channel = 9;
}

abbrev pair : World Call Pair
pair = record {
  log = [];
  globals = record { tx = sender; rx = record sender { direction = dev_to_mem; bdindex = 0 } };
}

test_settles_example :
    let (r, w') = test kernel in_progress env pair in
    (r ≡ ok tt) × Settled w'.globals.tx × Settled w'.globals.rx
test_settles_example = test_settles kernel env in_progress pair refl refl refl

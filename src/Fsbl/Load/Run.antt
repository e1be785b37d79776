-- ===== src/Fsbl/Load/Run.antt =====
-- The downloads of a whole run of `LoadBootImage` of zynq-7000-tips-tricks/fsbl/image_mover.c.
use software_prototypes.Base.{ℕ, ◌<◌, ◌≡◌, true, false, ◌&&◌, [], get_or}
use software_prototypes.Machine.{Env, World, ok}
use software_prototypes.Fsbl.Header.{Header}
use software_prototypes.Fsbl.System.{Config, Globals, Call, has, member}
use software_prototypes.Fsbl.Partition.Stages.{Authentic}
use software_prototypes.Fsbl.Load.{image_start_address, read_headers}

-- The start of `LoadBootImage`, which clears two of the variables.
abbrev pub started : World Call Globals → World Call Globals
started w = record w { globals = record w.globals { bitstream = false; application = false } }

-- Each of the partitions that the loader counts in the headers that it has read is marked as signed.
abbrev pub Signed : Config → Globals → Type 0
Signed c g =
    (i : ℕ)
    → i < g.partition_count
    → has (member (get_or g.partition_header i []) c.layout.partition_attr) c.rsa_present_mask
      ≡ true

-- It is so when this run has read the headers with success.
abbrev pub AllSigned : Config → Env Call → World Call Globals → Type 0
AllSigned c e w =
    let (r, w1) = image_start_address c e (started w) in
    (base : ℕ)
    → r ≡ ok base
    → (read_headers c base e w1).0 ≡ ok tt
    → Signed c (read_headers c base e w1).1.globals

-- What holds from the start of a run on: the downloads so far, and the two flags.
pub record Sound (e : Env Call) (w : World Call Globals) : Type 0 where
  pub authentic : Authentic e w.log
  pub exclusive : (w.globals.pl && w.globals.ps) ≡ false

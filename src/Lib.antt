-- ===== src/Lib.antt =====
-- Verification of the Xilinx wiki's software prototypes, models of its C programs.
--
-- The repository is a collection of programs for Xilinx devices that do not link with each other. The
-- files model nine of them.
--
-- * The Zynq-7000 first stage boot loader, zynq-7000-tips-tricks/fsbl/image_mover.c (Fsbl).
--   `LoadBootImage` reads and validates the partition headers of a boot image and then moves,
--   checks, authenticates and decrypts the partitions one after the other. Fsbl/Header has the tests
--   on one header (`ValidateHeader`, `ValidatePartitionHeaderChecksum`, `IsEmptyHeader`,
--   `IsLastPartition`, `GetPartitionCount`), Fsbl/System the global variables, build options and
--   calls, Fsbl/Image the reading of the headers (`GetPartitionHeaderInfo`, `GetNAuthImageHeader`,
--   `ValidateParition` and their callees), Fsbl/Move `PartitionMove` and `DecryptPartition`,
--   Fsbl/Partition one turn of the loop of `LoadBootImage`, split at its guards, and Fsbl/Load the
--   rest of that function. Fsbl/Layout holds what the code takes from headers outside the repository.
-- * The DMA proxy driver, linux-user-space-dma/Software/Kernel/dma-proxy.c, with its header in
--   Software/Common/dma-proxy.h. Dma/Shared is the header, Dma/Transfer the state of a channel and
--   `start_transfer`, `wait_for_transfer` and `ioctl`, Dma/Channel `cdevice_init`, `cdevice_exit`
--   and `create_channel`, Dma/Probe `dma_proxy_probe` and `dma_proxy_remove` over the channels of the
--   device tree, and Dma/SelfTest the internal test. Dma/Probe/Resources counts and names what the log
--   of a run holds of the kernel, Dma/Probe/Holding what the probe has acquired channel by channel.
-- * The test application of the DMA proxy, linux-user-space-dma/Software/User/dma-proxy-test.c:
--   Dma/Threads has `tx_thread` and `rx_thread`, the clients of the driver's `ioctl`, which
--   Dma/Threads/Driver runs on the driver. Dma/Loopback has the two threads side by side, as machines
--   whose steps and the signal of `sigint` come in any order on the shared `num_transfers` and `stop`;
--   a receive completes only for a transfer that was sent. Dma/Loopback/Machine holds the receiving
--   machine against `rx_thread`. Dma/Application has `main` and `setup_threads`.
-- * The programming of a clock generator, zcu670-si5381/Si5381A-programming.c (Clock): Clock has
--   `WriteSi538xRegister` with its cached page and `ReadSi538xRegister`, Clock/Setup `ProgramSi5381`,
--   and Clock/Device what the device makes of the sends.
-- * The trip counters of plm-r5-a72-ipi: the user module of the Versal platform loader,
--   plm/user_ipi_demo.c (Plm: `ProcessCmd` and `UserTask`, with Plm/Rate for what a period sends,
--   and Plm/Session for `User_Init` and the commands and periods behind it), the Linux application
--   a72-linux/libmetal-linux-ipi-demo.c (Plm/A72) and the R5's application
--   r5/xilmailbox_example.c (Plm/R5). Plm/Trips runs each application with what the loader's code
--   answers, or the loader with what the application's code answers: the acknowledgement that the
--   loader polls for is the clear of its bit by the A72's handler. The loader's count of its periods is
--   the bit pattern of its `int`.
-- * The messages of zynqmp-ipi-messaging/Software: Messaging/Firmware has `IpiHandler` and
--   `XPfw_SendIpi` of xpfw_mod_custom.c, Messaging/Remote the interrupt handlers of main_mb0.c,
--   main_mb1.c, main_r5_0.c, main_r5_1.c and testapp.c, Messaging/System the firmware with these
--   handlers as its environment: a poll for an acknowledgement succeeds if the handler has cleared its
--   interrupt, with the response that it had written by then; only the mailbox of main_r5_1.c, of
--   which no clear is in the source, acknowledges by itself what it was sent. Messaging/App has `main` of testapp.c, and Messaging/Boot the calls of
--   each `main` from power-on, in any order with those of the others and the firmware's ticks. Metal
--   has the calls of libmetal that the two Linux applications make.
-- * The cache coherency demos zynqmp-cache-coherency/Software and versal-cache-coherency/Software:
--   Coherency has the tests, Coherency/Zynqmp `main` of main_a53.c, Coherency/Versal `main` of
--   main_a72.c, Coherency/Rpu the handler of main_r5.c, Coherency/RpuStart its `main`, and
--   Coherency/Demos the demos with that handler. What an engine or the R5 does to the memory is a
--   function of the calls made by then, applied to what the last transfer or message asked for;
--   Coherency/Settings says which settings have to be among those calls for the engines to be coherent.
--   The flushes of `initBuffers` are calls that bear on engines that are not coherent.
-- * The second stage boot loader zynq-7000-tips-tricks/ssbl/ssbl_main.c (Ssbl). Copy has the loop over
--   bytes or words that it shares with the R5 of the coherency demos.
--
-- Base has the names, tests and list operations that all share, Word the arithmetic of `u32`, and
-- Machine the monad of the programs: a run has a state (the globals), a log of its calls, newest
-- first, and an outcome. It returns, hands over to a function that does not return, uses up its
-- fuel, or accesses an array out of bounds. What a call answers is a function of the log and of the
-- call (`Env`), so a theorem that holds for every `Env` holds for every behaviour of the
-- hardware, the libraries and the kernel.
--
-- Loops over a table recurse on the number of entries left. The loop of `LoadBootImage` has one round
-- of fuel for each partition counted, and one more, in which its counter leaves it. The loops of the
-- threads have fuel, the number of transfers for `rx_thread` and 31 more for `tx_thread`, whose
-- number of transfers an early stop replaces; the machines of Dma/Loopback have none, since a run has a
-- finite number of moves; the scheduler's periods of `UserTask` are counted, and so
-- are the rounds of the endless loops of Plm/A72 and Plm/R5. The waits for the I2C bus, for an
-- acknowledgement, for a flag and for a DMA engine have no bound in the code, and fuel in the model;
-- one read is enough where the answer is that the wait is over, as the theorems on them assume.
--
-- Not modelled: what only prints (`HeaderDump`, traces, comparisons of data read back, timing); the DMA
-- driver's file operations that only pass arguments on; the caches themselves, which the coherency
-- demos hold against a memory that all see alike; and the assembly of zynq-7000-tips-tricks/ssbl.
-- Hardware descriptions, register tables, the patches of optee and plm-r5-a72-ipi and prebuilt files
-- hold no program.
pub mod Base
pub mod Word
pub mod Machine
pub mod Copy
pub mod Ssbl
pub mod Fsbl
pub mod Dma
pub mod Clock
pub mod Plm
pub mod Metal
pub mod Messaging
pub mod Coherency

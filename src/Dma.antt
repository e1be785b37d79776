-- ===== src/Dma.antt =====
-- The DMA proxy of linux-user-space-dma: the kernel driver Software/Kernel/dma-proxy.c, the header
-- Software/Common/dma-proxy.h that it shares with its users, and the test application
-- Software/User/dma-proxy-test.c.
pub mod Shared
pub mod Transfer
pub mod Channel
pub mod Application
pub mod Probe
pub mod Loopback
pub mod SelfTest
pub mod Threads
mod Tests

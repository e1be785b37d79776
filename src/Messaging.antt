-- ===== src/Messaging.antt =====
-- The IPI messages between the platform management unit of a ZynqMP and the other processors, in
-- zynqmp-ipi-messaging/Software: the firmware's module xpfw_mod_custom.c, and the programs of the five
-- processors that answer it, from their starts on.
pub mod Firmware
pub mod Remote
pub mod System
pub mod App
pub mod Boot
mod Tests

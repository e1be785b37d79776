-- ===== src/Machine.antt =====
-- Programs that talk to hardware and to libraries which the repository does not hold. A run keeps
-- the log of its calls, newest first; what a call answers is a parameter, a function of the log so
-- far and of the call, so that a theorem for every `Env` is a theorem for every behaviour of what
-- is called.
mod Defs
pub mod Laws
pub use Defs.*

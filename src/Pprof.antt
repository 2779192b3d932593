-- ===== src/Pprof.antt =====
-- src/pprof.rs: sampling heap profiles. Floating-point arithmetic, the random numbers and the
-- backtrace library are parameters of the definitions that use them.
pub mod Wire
pub mod Sampler
pub mod Tables
pub mod Profile

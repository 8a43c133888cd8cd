-- ===== src/Linux.antt =====
-- platform/linux/src: the parts of the Linux backends that compute.
pub mod CabResolver
pub mod CriticalityProber
pub mod FwupdContract

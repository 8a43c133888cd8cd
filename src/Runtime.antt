-- ===== src/Runtime.antt =====
-- core/include/devmgr/runtime and core/src: events, delays and tasks between threads.
pub mod DelayedScheduler
pub mod EventBus

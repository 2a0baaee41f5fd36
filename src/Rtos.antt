-- ===== src/Rtos.antt =====
-- emulator/heros_rtos.c: the HeROS kernel calls, answered in userspace over one shared segment.
pub mod Table
pub mod Names
pub mod State
pub mod Tasks
pub mod Events
pub mod Rendezvous
pub mod Signals
pub mod Semaphores
pub mod Queues
pub mod Acks
pub mod Calls
pub mod Dispatch
pub mod Evdev
pub mod Shape
pub mod Regions
mod Tests

-- ===== src/Channel.antt =====
-- src/channel.c: channels, their wait queues, and select.
pub mod State
pub mod Buffer
pub mod Waiters
pub mod Invariant
pub mod Attempt
pub mod Api
pub mod Registry
pub mod Shuffle
pub mod Select
pub mod Samples

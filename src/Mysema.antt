-- ===== src/Mysema.antt =====
-- project3/mysemaphore.c: ten kernel semaphores with three wake-up orders.
-- `Calls` has the code of the system calls on one semaphore, `System` the calls of many tasks,
-- interleaved. What the proofs share of the interleavings is in `Inv`.
pub mod Calls
pub mod Wake
pub mod System
mod Tests

-- ===== src/Bbfs.antt =====
-- What project4/bbfs.c adds to the pass-through file system that it is built on: the policy file
-- ee516.conf (`Policy`), the encryption of the data (`Cipher`), the buffer cache (`Cache`), the read
-- and write operations that join them (`Read`, `Write`), and the operations passed through (`Forward`).
pub mod Policy
pub mod Cipher
pub mod Cache
pub mod Read
pub mod Write
pub mod Forward
mod Tests

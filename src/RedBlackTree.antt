-- ===== src/RedBlackTree.antt =====
-- hw4/hw4_redblacktree.c: a red-black tree of processes by virtual run time, on nodes with pointers.
-- `Memory` has the nodes and the variable `root`, `Rotate`, `Insert` and `Delete` the functions on it.
pub mod Memory
pub mod Holds
pub mod Context
pub mod Zip
pub mod Colors
pub mod Cells
pub mod Rotate
pub mod Insert
pub mod Delete
mod Tests

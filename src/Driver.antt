-- ===== src/Driver.antt =====
-- driver/: the commands that start the drivers of others.
pub mod Cpu
pub mod Memory
pub mod Sriov
mod Examples

-- ===== src/Ioctl.antt =====
-- pci.c: `snvm_dev_map_ioctl`, the system calls on /dev/ssnvme<N>.
pub mod Reply
pub mod Map
pub mod Unmap
pub mod Config
pub mod DevInfo
pub mod Group
pub mod AddRequest
pub mod AddQueue

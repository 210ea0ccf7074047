-- ===== src/Lib.antt =====
-- A model of the snvme driver, the kernel module that hands NVMe queue pairs to user space:
-- backends/local/kernel_modules/snvme-5.10-npu, with the ioctl structures of
-- backends/local/nvme/libnvm/include/ioctl.h.
--
-- The program. A control device /dev/snvm_control binds PCI devices to the driver and makes their
-- character devices; a probe settles how many I/O queues the kernel takes and how many are left to
-- user space; the kernel's own queues run on rings with doorbells. Each controller has a device
-- /dev/ssnvme<N>. An open file (`struct snvm_dev_owner`) may own a queue group and data maps. User
-- space pins host or device memory (NVM_MAP_*), makes a group, and asks for queue pairs over pinned
-- rings (NVM_ADD_USER_QUEUE); the driver takes QIDs from the controller's pool and creates a CQ and an
-- SQ on the device for each pair. Destroying the group or closing the file takes all of it back. An
-- older path registers rings against a budget of the controller (NVM_SET_IOQ_NUM).
--
-- The files.
--   State: the structures of pci.c, ctrl.h and map.h, the module's global lists, what the kernel's
--     functions return during a call (`Env`), and what lies below the driver (`Kernel`).
--   Admin: the four queue commands (`adapter_delete_queue`, `adapter_alloc_cq_user`,
--     `adapter_alloc_sq_user`); Admin.Device has the queue rules of the NVMe specification, against which
--     the commands are judged, and Admin.Pairs the life of a pair under them.
--   QidPool: `snvm_user_qid_pool_init_locked`, `snvm_user_qid_alloc_locked`, `snvm_user_qid_free_locked`.
--   Ctrls: the lookups of ctrl.c and `snvm_ctrl_get_live_ndev`.
--   Maps: map.c, the descriptors, their release and the purge; Maps.Host and Maps.Device map memory.
--   Groups: `find_qgroup_locked` and `destroy_qgroup_locked`.
--   Ioctl: the cases of `snvm_dev_map_ioctl`, by topic: Map, Unmap, Config, DevInfo, Group,
--     AddRequest (the checks of NVM_ADD_USER_QUEUE and the search for rings) and AddQueue (the rest of it).
--   File: open, release, mmap and the dispatch of the system call.
--   NvmeQueue: the rings of `struct nvme_queue`. Submission, the doorbells and `nvme_commit_rqs`, with
--     NvmeQueue.Feed and NvmeQueue.Fifo for sequences of them; NvmeQueue.Completion reaps the CQ;
--     NvmeQueue.Init and NvmeQueue.Fresh bring a queue up.
--   Control: ctrl.c and the control device: Request (`snvm_chrdev_helper`, `snvm_ioctl`), Binding
--     (the rebinding of drivers), Unload (`nvme_exit`) and Device (`snvm_cdev_init`).
--   IoQueues: `s_nvme_setup_io_queues` up to the admin queue's interrupt, and IoQueues.UserQueues, the
--     user queues that a probe makes (`nvme_create_io_queues_mix`).
--   Scatter, Transfer: the data of a request. Transfer is `nvme_pci_setup_prps` and `nvme_free_prps`;
--     Transfer.Device reads the lists as a controller does by the NVMe specification; Lists, Small,
--     Filled, Rounds, Bytes, Covers, Start and Prps compare the two, Chain, Released and Tidy follow the
--     lists to their release. Transfer.Sgl is the same for SGLs, Transfer.Data is `nvme_map_data` and
--     `nvme_unmap_data`, and Transfer.Request `nvme_queue_rq` and `nvme_pci_complete_rq`.
--   NpuP2p: npu-p2p.c, the pages of device memory that are a dma-buf: NpuP2p.Outcome by the result of
--     each call, NpuP2p.Pages the addresses, NpuP2p.Balance what is held and given back.
--   Doorbell: `sq_idx`, `cq_idx` and `db_bar_size`.
--   Tests: concrete states, and the runs of the properties on them.
--
-- The model. A handler is a function from the world to a reply: a return value, a world and what was
-- copied out. Maps live on a heap of descriptors and lists hold pointers, since a map is on a list of
-- the module and on one of a file at once. A controller is named by its character device. A section
-- under a mutex is one step. The trace keeps each admin command with its answer and each DMA and page
-- event in order. The code's `unsigned int` and `uint16_t` counters wrap.
--
-- Parameters. `submit_sync_cmd` stands for snvme_submit_sync_cmd down to the device, and may answer by
-- the whole history; where a property needs the device to carry out deletions, it says so
-- (`DeletesSucceed`). `find_first_zero_bit` has its documented behaviour (`FindsFirstZero`). User
-- copies, allocations, get_user_pages, dma_map_page, the peer-to-peer functions, ida_simple_get and
-- snvme_find_get_ns answer by `Env` or by an argument; `Env` says too what a pointer in memory from
-- kmalloc holds before it is written. The driver core of the kernel is `DriverCore`, with its
-- documented behaviour in `BindsDrivers`; the block layer's tags are `Tags`; the answers during a
-- setup are `SetupEnv` and `ProbeEnv`. `dma_pool_alloc` answers by `Pools`, with lists that are
-- aligned (`IsSmallPool`) and for pages apart (`IsPagePool`); what the block layer and the DMA
-- functions make of a request stands in `Rq`, and what core.c makes of its command in `RqEnv`, with
-- non-empty segments that are split on pages (`IsPaged`); the dma-buf calls answer by `DmaBufs`.
--
-- Bounds. The purge of a list has one round for each map of the list and one more, which is enough
-- since each round but the last takes a map off the list. The wait of NVM_GET_DEV_INFO has 101 rounds,
-- and its time limit of 5000 ms in steps of 50 ms ends it first. The reaping of a CQ has as many
-- rounds as the ring has entries, which is enough since the phase that is due changes at the wrap; it
-- reads the CQ as it is during one call. The clearing of a list has one round for each element. The
-- loop of the PRP set-up has a round for each page that is left, which is enough since each round
-- takes a page; the expansion of a segment has a round for each free entry, which is enough since each
-- round takes one. All other loops are structural.
--
-- Not modelled: the block-layer driver that the module is a copy of, beyond its rings and the settling
-- of its queues and the way of a request: the set-up of commands in core.c, the commands that make the
-- kernel's own queues, the CMB, resets and power management; the force_release callbacks of memory
-- that a GPU driver takes away; the GPU shim nvfs-p2p.c; memory barriers; the interleaving of system
-- calls outside their locks; the ports to other kernels; and user space.
pub mod Prelude
pub mod State
pub mod Admin
pub mod NvmeQueue
pub mod Control
pub mod IoQueues
pub mod QidPool
pub mod Ctrls
pub mod Maps
pub mod Groups
pub mod Ioctl
pub mod Doorbell
pub mod Scatter
pub mod NpuP2p
pub mod Transfer
pub mod File
pub mod Tests

-- ===== src/Lib.antt =====
-- A verification library for OpenAMP: rings of buffers in memory that two cores share, and
-- messages between endpoints on the two cores.
--
-- The parts. A virtqueue (lib/virtio/virtqueue.c) is a queue over a split ring
-- (lib/include/openamp/virtio_ring.h) in shared memory. One core, the driver, owns the
-- descriptors: it adds chains of buffers and collects used ones. The other core, the device,
-- takes available buffers and returns them. Endpoints (lib/rpmsg/rpmsg.c) are addresses on a
-- device with callbacks; their messages go out through a function pointer of the device. A remote
-- processor (lib/remoteproc) is configured, loaded with an image, started and stopped; the resource
-- table of its image says which memories and virtio devices it has, and each virtio device of the
-- table (lib/remoteproc/remoteproc_virtio.c) has its status, its features and its configuration
-- space there, and virtqueues that notification ids reach. The remote procedure calls of file I/O
-- (lib/proxy/rpmsg_retarget.c) send system calls through an endpoint to a server
-- (apps/examples/rpc_demo/rpc_demod.c) that runs them on its host.
--
-- The files. Base has the helpers. Vring is virtio_ring.h: `Vring` is the memory of `struct
-- vring`, `vring_size`, `vring_init` and `vring_need_event` keep their names. Virtqueue is
-- `struct virtqueue` with the checks of virtqueue.h; Virtqueue/Driver has `virtqueue_create`,
-- `virtqueue_add_buffer` and `virtqueue_get_buffer`, Virtqueue/Device
-- `virtqueue_get_available_buffer`, `virtqueue_add_consumed_buffer` and
-- `virtqueue_get_desc_size`, Virtqueue/Notify the callbacks and the kick. Virtqueue/Protocol has
-- both cores at one ring, as a step relation over the functions that add, take, return and
-- collect buffers. Rpmsg is rpmsg.h and rpmsg_internal.h; Rpmsg/Address has the bitmap of
-- addresses, Rpmsg/Endpoint the list of endpoints with creation, destruction and the sending of
-- name service messages, Rpmsg/Message the bytes of such a message. RpmsgVirtio
-- has the pool of shared buffers and the functions of lib/rpmsg/rpmsg_virtio.c that take buffers
-- from the virtqueues of a device and give them back, on top of Virtqueue, and
-- `send_offchannel_raw`, which is `rpmsg_virtio_send_offchannel_raw`: its wait loop has the tick
-- count of the code as its recursion, and what happens during a sleep is a parameter.
-- RpmsgVirtio/Receive is the receiving side, `rx_callback` and `ns_callback`, with the callbacks
-- of endpoints as steps of the state that the device and the application share, and
-- RpmsgVirtio/Init `rpmsg_init_vdev` and `rpmsg_deinit_vdev` with `virtio_create_virtqueues` of
-- lib/virtio/virtio.c. Remoteproc is lib/include/openamp/remoteproc.h and lib/remoteproc:
-- Lifecycle has `remoteproc_config` to `remoteproc_remove`, Memory the address translation and
-- `remoteproc_mmap`, Ids `remoteproc_allocate_id`, RscTable the resource table parser, which
-- calls Memory and Ids as the code does, and Elf is lib/remoteproc/elf_loader.c: the fields of
-- the headers, Elf/Header `elf_load_header` as its four steps, Elf/Segments and Elf/Load
-- `elf_load`, Elf/Sections the sections by name. The int of the load state is its three bytes
-- there, a loader stage, a header state and a count. Image has `remoteproc_load_noblock`, which
-- calls Elf, Memory and RscTable, and `remoteproc_set_rsc_table`. Virtio is remoteproc_virtio.c,
-- whose `rproc_virtio_` functions keep their names, over the bytes of the device entry in the
-- resource table: Virtio/Lifetime has the creation and removal of a device with a heap of
-- allocated addresses, Virtio/Devices `remoteproc_create_virtio`, `remoteproc_remove_virtio` and
-- `remoteproc_get_notification` of remoteproc.c. The platform's functions are parameters, steps
-- of a state of the platform. Proxy has the messages of rpmsg_retarget.h, Proxy/Retarget the
-- client, `rpmsg_rpc_init` to `rpmsg_rpc_send` with the callbacks of the endpoint,
-- Proxy/Retarget/Files `_open`, `_read`, `_write` and `_close` as `sys_open` to `sys_close`,
-- Proxy/Server the handlers of rpc_demod.c, and Proxy/Remote joins the two by the messages
-- between them. Tests modules apply the theorems to concrete states.
--
-- Conventions. A pointer is a number and 0 is NULL. An array is a function with a size, and every
-- access is checked: a result of `none` is an access outside an array, a failed assertion of a
-- build with VQUEUE_DEBUG (`dbg`), or a walk round a cycle of descriptors. uint16_t arithmetic
-- wraps at 2 ^ 16 where the code wraps; `vring_size` is an `int` of 32 bits beside a `size_t` and
-- pointers of 64, kept as words. The walk of `vq_ring_free_chain` has one more unit of
-- fuel than the ring has descriptors, which a chain that is linked without a cycle does not
-- exceed; under the invariant of the driver the walk is shown to end. The loop of
-- `rpmsg_virtio_rx_callback` has as much fuel as there are messages waiting, that of
-- `rpmsg_deinit_vdev` as many as endpoints, and that of `elf_next_load_segment` one more than
-- program headers; the waits of a slave for the other core, of `rpmsg_rpc_init` for its endpoint
-- and of `rpmsg_rpc_send` for a response may not end, and their fuel is an argument: one more look
-- than turns until the event, and for a response two, are enough. The resource table is as many bytes as it has, and fields are read low byte first.
--
-- Not modelled: libmetal (address translation, locks, lists, the bitmap; parameters where their
-- results matter), memory barriers and cache operations (the steps of the two cores are whole
-- calls), logging, and allocation but for that of the virtio devices. Of
-- lib/remoteproc/remoteproc.c, `remoteproc_load` with `remoteproc_get_rsc_table` and
-- `remoteproc_init`; of rpc_demod.c, its main loop and signal handlers; the other programs and the
-- machine ports under apps, which are hardware registers, interrupts and console output; the
-- scripts.
pub mod Base
pub mod Proxy
pub mod Remoteproc
pub mod Rpmsg
pub mod RpmsgVirtio
pub mod Virtqueue
pub mod Vring

-- ===== src/RpmsgVirtio.antt =====
-- lib/rpmsg/rpmsg_virtio.c and rpmsg_virtio.h: the pool of shared buffers, and how a device takes
-- buffers from its two virtqueues and gives them back.
--
-- `RpmsgVirtioDevice` is the part of `struct rpmsg_virtio_device` that these functions use; a NULL
-- buffer is `none`.
pub mod Init
mod Pool
mod Posted
mod Raw
pub mod Receive
mod Send
mod Tests
mod Wait
use openamp.Base.{
  ℕ, zero, suc, ◌+◌, ◌-◌, Bool, Option, none, some, List, [], ◌∷◌, ltb, ◌==◌, ◌&&◌, not, true,
  false, ◌%◌, ◌^◌, if◌then◌else◌, ◌>>=◌,
}
use openamp.Rpmsg.{RpmsgError}
use openamp.Virtqueue.{Virtqueue, ShmIo, Role, master, slave, Status}
use openamp.Virtqueue.Driver.{Got, virtqueue_add_buffer, virtqueue_get_buffer}
use openamp.Virtqueue.Device.{
  Available, virtqueue_get_available_buffer, virtqueue_add_consumed_buffer, virtqueue_get_desc_size,
}

-- RPMSG_BUFFER_SIZE and sizeof(struct rpmsg_hdr)
abbrev pub rpmsg_buffer_size : ℕ
rpmsg_buffer_size = 512

abbrev pub sizeof_rpmsg_hdr : ℕ
sizeof_rpmsg_hdr = 16

-- VIRTIO_CONFIG_STATUS_DRIVER_OK
abbrev pub status_driver_ok : ℕ
status_driver_ok = 4

-- `struct rpmsg_virtio_shm_pool`
pub record ShmPool : Type 0 where
  pub base : ℕ
  pub avail : ℕ
  pub size : ℕ

pub rpmsg_virtio_init_shm_pool : (shb size : ℕ) → ShmPool
rpmsg_virtio_init_shm_pool shb size = record { base = shb; avail = size; size = size }

pub rpmsg_virtio_shm_pool_get_buffer : ShmPool → (size : ℕ) → Option ℕ × ShmPool
rpmsg_virtio_shm_pool_get_buffer shpool size = if ltb shpool.avail size then (none, shpool) else (
  some (shpool.base + shpool.size - shpool.avail),
  record shpool { avail = shpool.avail - size },
)

pub record RpmsgVirtioDevice : Type 0 where
  pub role : Role
  pub rvq : Virtqueue
  pub svq : Virtqueue
  pub shpool : ShmPool

-- A buffer with the length and the index that the pointers `len` and `idx` are set to. The index of
-- a buffer from the pool is left as it was; a master does not read it.
pub record Buffer : Type 0 where
  pub addr : ℕ
  pub len : ℕ
  pub idx : ℕ

abbrev pub of_got : Got → Buffer
of_got g = record { addr = g.cookie; len = g.len; idx = g.idx }

abbrev pub of_available : Available → Buffer
of_available a = record { addr = a.buffer; len = a.len; idx = a.avail_idx }

-- How a round of the loop that waits for a buffer ends.
pub data Round : Type 0 where
  got : Buffer → Round
  failed : RpmsgError → Round
  again : Round

-- The end of a round, with the buffer or NULL.
abbrev pub after_round : Option Buffer → (waits no_size : Bool) → Round
after_round (some b) waits no_size = got b
after_round none false no_size = failed RpmsgError.no_buff
after_round none true false = failed RpmsgError.buff_size
after_round none true true = again

-- The buffer of the pool for a master whose send queue has none to collect, where `*idx` is `idx`.
pub pool_buffer : (idx : ℕ) → RpmsgVirtioDevice → Option Buffer × RpmsgVirtioDevice
unfolding rpmsg_virtio_shm_pool_get_buffer
pool_buffer idx rvdev =
    let (b, shpool) = rpmsg_virtio_shm_pool_get_buffer rvdev.shpool rpmsg_buffer_size in
    (
      elim b [
        | none ↦ none
        | some addr ↦ some (record { addr = addr; len = rpmsg_buffer_size; idx = idx })
      ],
      record rvdev { shpool = shpool },
    )

module _ (dbg : Bool) (io : ShmIo) where
  -- What `rpmsg_virtio_get_tx_buffer` does with the result of `virtqueue_get_buffer`: a NULL cookie
  -- is no buffer. Where no entry was collected, `*idx` is the caller's, here 0.
  pub tx_got : RpmsgVirtioDevice → Option Got × Virtqueue → Option Buffer × RpmsgVirtioDevice
  unfolding pool_buffer
  tx_got rvdev (none, vq) = pool_buffer 0 (record rvdev { svq = vq })
  tx_got rvdev (some g, vq) =
      if g.cookie == 0
      then pool_buffer g.idx (record rvdev { svq = vq })
      else (some (of_got g), record rvdev { svq = vq })

  pub rpmsg_virtio_get_tx_buffer : RpmsgVirtioDevice → Option (Option Buffer × RpmsgVirtioDevice)
  unfolding tx_got
  rpmsg_virtio_get_tx_buffer rvdev = elim rvdev.role [
    | master ↦ do r ← virtqueue_get_buffer dbg rvdev.svq; some (tx_got rvdev r)
    | slave ↦ do
      (a, vq) ← virtqueue_get_available_buffer dbg io rvdev.svq
      some (elim a [ none ↦ none | some a ↦ some (of_available a) ], record rvdev { svq = vq })
  ]

  pub rpmsg_virtio_get_rx_buffer : RpmsgVirtioDevice → Option (Option Buffer × RpmsgVirtioDevice)
  rpmsg_virtio_get_rx_buffer rvdev = elim rvdev.role [
    | master ↦ do
      (g, vq) ← virtqueue_get_buffer dbg rvdev.rvq
      some (elim g [ none ↦ none | some g ↦ some (of_got g) ], record rvdev { rvq = vq })
    | slave ↦ do
      (a, vq) ← virtqueue_get_available_buffer dbg io rvdev.rvq
      some (elim a [ none ↦ none | some a ↦ some (of_available a) ], record rvdev { rvq = vq })
  ]

  pub rpmsg_virtio_enqueue_buffer : RpmsgVirtioDevice → Buffer → Option (Status × RpmsgVirtioDevice)
  rpmsg_virtio_enqueue_buffer rvdev b = elim rvdev.role [
    | master ↦ do
      (status, vq) ←
          virtqueue_add_buffer dbg io rvdev.svq (record { buf = b.addr; len = b.len } ∷ []) 1 0
            b.addr
      some (status, record rvdev { svq = vq })
    | slave ↦ do
      (status, vq) ← virtqueue_add_consumed_buffer dbg rvdev.svq b.idx b.len
      some (status, record rvdev { svq = vq })
  ]

  -- The status of the queue is not looked at.
  pub rpmsg_virtio_return_buffer : RpmsgVirtioDevice → Buffer → Option RpmsgVirtioDevice
  rpmsg_virtio_return_buffer rvdev b = elim rvdev.role [
    | master ↦ do
      (status, vq) ←
          virtqueue_add_buffer dbg io rvdev.rvq (record { buf = b.addr; len = b.len } ∷ []) 0 1
            b.addr
      some (record rvdev { rvq = vq })
    | slave ↦ do
      (status, vq) ← virtqueue_add_consumed_buffer dbg rvdev.rvq b.idx b.len
      some (record rvdev { rvq = vq })
  ]

  -- `_rpmsg_virtio_get_buffer_size`: the size of a descriptor less the header, as a signed 32-bit
  -- number, and 0 where that is negative.
  pub get_buffer_size : RpmsgVirtioDevice → Option (ℕ × RpmsgVirtioDevice)
  get_buffer_size rvdev = elim rvdev.role [
    | master ↦ some (rpmsg_buffer_size - sizeof_rpmsg_hdr, rvdev)
    | slave ↦ do
      (size, vq) ← virtqueue_get_desc_size dbg rvdev.svq
      let length = (size + 2 ^ 32 - sizeof_rpmsg_hdr) % 2 ^ 32
      some (if ltb length (2 ^ 31) then length else 0, record rvdev { svq = vq })
  ]

  -- One round of the loop of `rpmsg_virtio_send_offchannel_raw`: a buffer or an error code ends it,
  -- else it goes on to sleep. `waits` says whether ticks are left.
  pub wait_round :
      (size : ℕ) (waits : Bool) → RpmsgVirtioDevice → Option (Round × RpmsgVirtioDevice)
  unfolding get_buffer_size rpmsg_virtio_get_tx_buffer
  wait_round size waits rvdev = do
    (avail_size, rvdev) ← get_buffer_size rvdev
    (if not (avail_size == 0) && ltb avail_size size
        then some (failed RpmsgError.buff_size, rvdev)
        else (do
          (b, rvdev) ← rpmsg_virtio_get_tx_buffer rvdev
          some (after_round b waits (avail_size == 0), rvdev)))

  -- The loop, with `tick_count` ticks left; `sleep` is what the other core and the interrupts do to the
  -- device during `metal_sleep_usec`.
  pub wait_buffer :
      (sleep : RpmsgVirtioDevice → RpmsgVirtioDevice) (size tick_count : ℕ)
      → RpmsgVirtioDevice
      → Option (Round × RpmsgVirtioDevice)
  unfolding wait_round
  wait_buffer sleep size zero rvdev = wait_round size false rvdev
  wait_buffer sleep size (suc tick_count) rvdev = do
    (r, rvdev) ← wait_round size true rvdev
    elim r [
      | got b ↦ some (got b, rvdev)
      | failed e ↦ some (failed e, rvdev)
      | again ↦ wait_buffer sleep size tick_count (sleep rvdev)
    ]

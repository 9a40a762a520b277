-- ===== src/Virtqueue.antt =====
-- lib/include/openamp/virtqueue.h and lib/virtio/virtqueue.c: the state of a virtqueue, its status
-- codes and the checks that VQUEUE_DEBUG switches on.
--
-- `Virtqueue` is one core's `struct virtqueue`; `vring` is the memory that it shares with the other
-- core. The role and the features of the device `vq_dev` stand in the record itself. Pointers are
-- numbers, 0 is NULL. The result of an operation is `none` where the C code accesses memory outside
-- an array, fails an assertion, or follows descriptors round a cycle.
pub mod Device
pub mod Driver
pub mod Examples
pub mod Fifo
pub mod Notify
pub mod Protocol
mod Tests
use openamp.Base.{
  ℕ, ◌+◌, ◌-◌, ◌%◌, ◌^◌, Bool, true, false, not, ◌&&◌, Option, none, some, List, bit_and, ltb, ◌==◌,
  if◌then◌else◌,
}
use openamp.Vring.{Vring, VringDesc, UsedElem}

-- The codes of virtqueue.h; `success` is VQUEUE_SUCCESS, 0.
pub data Status : Type 0 where
  success vring_full invld_desc_idx empty_ring no_mem vring_max_desc vring_align vring_no_buff
        invld_param :
      Status

abbrev pub is_success : Status → Bool
is_success Status.success = true
is_success _ = false

-- VQ_RING_DESC_CHAIN_END
abbrev pub chain_end : ℕ
chain_end = 32768

-- VIRTIO_RING_F_EVENT_IDX, 1 << 29
abbrev pub ring_f_event_idx : ℕ
ring_f_event_idx = 2 ^ 29

-- VIRTIO_DEV_MASTER and VIRTIO_DEV_SLAVE
pub data Role : Type 0 where
  master slave : Role

-- `struct virtqueue_buf`
pub record VirtqueueBuf : Type 0 where
  pub buf : ℕ
  pub len : ℕ

-- `struct vq_desc_extra`
pub record DescExtra : Type 0 where
  pub cookie : ℕ
  pub ndescs : ℕ

-- `struct virtqueue`; `descx_num` is the number of entries that `vq_descx` was allocated with, and
-- `notify` and `callback` say whether the pointers are set.
pub record Virtqueue : Type 0 where
  pub role : Role
  pub features : ℕ
  pub queue_index : ℕ
  pub nentries : ℕ
  pub callback : Bool
  pub notify : Bool
  pub vring : Vring
  pub free_cnt : ℕ
  pub queued_cnt : ℕ
  pub desc_head_idx : ℕ
  pub used_cons_idx : ℕ
  pub available_idx : ℕ
  pub inuse : Bool
  pub descx_num : ℕ
  pub descx : ℕ → DescExtra

-- The I/O region of libmetal behind `vq->shm_io`: `metal_io_phys_to_virt`, `metal_io_virt_to_phys`.
pub record ShmIo : Type 0 where
  pub phys_to_virt : ℕ → ℕ
  pub virt_to_phys : ℕ → ℕ

-- `idx & (vq->vq_nentries - 1)`, computed in an `int`
abbrev pub ring_index : (idx nentries : ℕ) → ℕ
ring_index idx nentries = bit_and idx ((nentries + 2 ^ 32 - 1) % 2 ^ 32)

-- The macros of virtqueue.h. They do something only in a build with VQUEUE_DEBUG, `dbg` here.
module _ (dbg : Bool) where
  -- VQASSERT
  abbrev pub vqassert : Bool → Option (Unit {0})
  vqassert ok = if dbg && not ok then none else some tt

  -- VQ_PARAM_CHK
  abbrev pub param_chk : (condition : Bool) (err status : Status) → Status
  param_chk condition err status = if dbg && (is_success status && condition) then err else status

  -- VQUEUE_BUSY and VQUEUE_IDLE
  abbrev pub busy : Virtqueue → Option Virtqueue
  busy vq = if dbg then (if vq.inuse then none else some (record vq { inuse = true })) else some vq

  abbrev pub idle : Virtqueue → Virtqueue
  idle vq = if dbg then record vq { inuse = false } else vq

  -- VQ_RING_ASSERT_VALID_IDX and VQ_RING_ASSERT_CHAIN_TERM
  abbrev pub assert_valid_idx : Virtqueue → ℕ → Option (Unit {0})
  assert_valid_idx vq idx = vqassert (ltb idx vq.nentries)

  abbrev pub assert_chain_term : Virtqueue → Option (Unit {0})
  assert_chain_term vq = vqassert (vq.desc_head_idx == chain_end)

-- ===== src/Virtqueue/Device.antt =====
-- lib/virtio/virtqueue.c, the side that consumes buffers: `virtqueue_get_available_buffer`,
-- `virtqueue_add_consumed_buffer`, `virtqueue_get_desc_size` and `virtqueue_get_buffer_length`.
pub mod Calls
use openamp.Base.{ℕ, Bool, Option, none, some, ltb, ◌==◌, if◌then◌else◌, ◌>>=◌}
use openamp.Base.Array.{load, store}
use openamp.Vring.{add16}
use openamp.Virtqueue.{Virtqueue, ShmIo, Status, success, vring_no_buff, ring_index, busy, idle}

-- What `virtqueue_get_available_buffer` returns: the buffer, and through its pointers the index of
-- its descriptor and its length.
pub record Available : Type 0 where
  pub buffer : ℕ
  pub avail_idx : ℕ
  pub len : ℕ

-- `virtqueue_get_buffer_length`
pub virtqueue_get_buffer_length : Virtqueue → (idx : ℕ) → Option ℕ
virtqueue_get_buffer_length vq idx = do dp ← load vq.vring.num vq.vring.desc idx; some dp.len

module _ (dbg : Bool) where
  -- `virtqueue_get_available_buffer`: `none` inside is NULL, with nothing available.
  pub virtqueue_get_available_buffer : ShmIo → Virtqueue → Option (Option Available × Virtqueue)
  virtqueue_get_available_buffer io vq =
      if vq.available_idx == vq.vring.avail_idx then some (none, vq) else do
        vq ← busy dbg vq
        avail_idx ← load vq.vring.num vq.vring.avail_ring (ring_index vq.available_idx vq.nentries)
        dp ← load vq.vring.num vq.vring.desc avail_idx
        some (
          some (record { buffer = io.phys_to_virt dp.addr; avail_idx = avail_idx; len = dp.len }),
          idle dbg (record vq { available_idx = add16 vq.available_idx 1 }),
        )

  -- `virtqueue_add_consumed_buffer`
  pub virtqueue_add_consumed_buffer : Virtqueue → (head_idx len : ℕ) → Option (Status × Virtqueue)
  virtqueue_add_consumed_buffer vq head_idx len =
      if ltb vq.nentries head_idx then some (vring_no_buff, vq) else do
        vq ← busy dbg vq
        let vr = vq.vring
        used ←
            store vr.num vr.used_ring (ring_index vr.used_idx vq.nentries)
              (record { id = head_idx; len = len })
        some (
          success,
          idle dbg (record vq {
            vring = record vr { used_ring = used; used_idx = add16 vr.used_idx 1 };
            queued_cnt = add16 vq.queued_cnt 1;
          }),
        )

  -- `virtqueue_get_desc_size`
  pub virtqueue_get_desc_size : Virtqueue → Option (ℕ × Virtqueue)
  virtqueue_get_desc_size vq = if vq.available_idx == vq.vring.avail_idx then some (0, vq) else do
    vq ← busy dbg vq
    avail_idx ← load vq.vring.num vq.vring.avail_ring (ring_index vq.available_idx vq.nentries)
    dp ← load vq.vring.num vq.vring.desc avail_idx
    some (dp.len, idle dbg vq)

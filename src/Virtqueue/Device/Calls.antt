-- ===== src/Virtqueue/Device/Calls.antt =====
-- lib/virtio/virtqueue.c: the results of the consumer's calls, on every branch.
use native.Mathlib.Decide.{dec_lt}
use openamp.Base.{
  ◌⊎◌, inl, inr, ℕ, ◌≤◌, ◌<◌, ◌≡◌, ◌≢◌, refl, Bool, false, none, some, arith, ◌==◌, if◌then◌else◌,
}
use openamp.Base.Array.{update}
use openamp.Vring.{add16}
use openamp.Virtqueue.{Virtqueue, ShmIo, success, vring_no_buff, ring_index}
use openamp.Virtqueue.Device.{
  virtqueue_get_available_buffer, virtqueue_add_consumed_buffer, virtqueue_get_desc_size,
}

module _ (dbg : Bool) (vq : Virtqueue) (idle : vq.inuse ≡ false) where
  -- `virtqueue_get_available_buffer` returns the buffer that the next entry of the available ring
  -- names and moves on by one entry.
  pub get_available-eq :
      (io : ShmIo) (slot h : ℕ)
      → vq.available_idx ≢ vq.vring.avail_idx
      → ring_index vq.available_idx vq.nentries ≡ slot
      → slot < vq.vring.num
      → vq.vring.avail_ring slot ≡ h
      → h < vq.vring.num
      → virtqueue_get_available_buffer dbg io vq
        ≡ some (
          some (record {
            buffer = io.phys_to_virt (vq.vring.desc h).addr;
            avail_idx = h;
            len = (vq.vring.desc h).len;
          }),
          record vq { available_idx = add16 vq.available_idx 1; inuse = false },
        )
  unfolding virtqueue_get_available_buffer
  get_available-eq io slot h ne es is eh ih = ground arith

  pub add_consumed-eq :
      (h len slot : ℕ)
      → h ≤ vq.nentries
      → ring_index vq.vring.used_idx vq.nentries ≡ slot
      → slot < vq.vring.num
      → virtqueue_add_consumed_buffer dbg vq h len
        ≡ some (
          success,
          record vq {
            vring = record vq.vring {
              used_ring = update vq.vring.used_ring slot (record { id = h; len = len });
              used_idx = add16 vq.vring.used_idx 1;
            };
            queued_cnt = add16 vq.queued_cnt 1;
            inuse = false;
          },
        )
  unfolding virtqueue_add_consumed_buffer
  add_consumed-eq h len slot hh es is = ground arith

  -- While the slot of the used ring lies inside the ring, `virtqueue_add_consumed_buffer` accepts
  -- exactly the head indices up to and including `nentries`; for any other it answers
  -- ERROR_VRING_NO_BUFF and leaves the queue as it is.
  pub add_consumed_accepts :
      (h len : ℕ)
      → ring_index vq.vring.used_idx vq.nentries < vq.vring.num
      → ((h ≤ vq.nentries)
          × ((vq' : Virtqueue) × (virtqueue_add_consumed_buffer dbg vq h len
                ≡ some (success, vq'))))
        ⊎ ((vq.nentries < h)
            × (virtqueue_add_consumed_buffer dbg vq h len ≡ some (vring_no_buff, vq)))
  add_consumed_accepts h len is = elim (dec_lt vq.nentries h) [
    | yes lt ↦ inr (lt, unfold virtqueue_add_consumed_buffer in ground arith)
    | no ge ↦
        let le : h ≤ vq.nentries = omega arith in
        inl (le, (_, add_consumed-eq h len (ring_index vq.vring.used_idx vq.nentries) le refl is))
  ]

  -- Before the next buffer is taken, `virtqueue_get_desc_size` tells the length that taking it will
  -- return, and leaves the queue as it is; it tells 0 where there is none.
  pub get_desc_size-available :
      (slot h : ℕ)
      → ring_index vq.available_idx vq.nentries ≡ slot
      → slot < vq.vring.num
      → vq.vring.avail_ring slot ≡ h
      → h < vq.vring.num
      → virtqueue_get_desc_size dbg vq
        ≡ some ((if vq.available_idx == vq.vring.avail_idx then 0 else (vq.vring.desc h).len), vq)
  unfolding virtqueue_get_desc_size
  get_desc_size-available slot h es is eh ih = ground arith

-- With nothing available, the queue stays as it is.
pub get_available-none :
    (dbg : Bool) (vq : Virtqueue) (io : ShmIo)
    → vq.available_idx ≡ vq.vring.avail_idx
    → virtqueue_get_available_buffer dbg io vq ≡ some (none, vq)
unfolding virtqueue_get_available_buffer
get_available-none dbg vq io e = ground arith

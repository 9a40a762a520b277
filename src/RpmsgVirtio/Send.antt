-- ===== src/RpmsgVirtio/Send.antt =====
-- lib/rpmsg/rpmsg_virtio.c: a master takes a buffer to send and enqueues it.
use openamp.Base.{
  ℕ, ◌+◌, ◌-◌, ◌%◌, ◌^◌, ◌≤◌, ◌<◌, ◌≡◌, ◌≢◌, refl, ap, ◌∙◌, Bool, false, ◌==◌, Option, some, List,
  [], ◌∷◌, ◌++◌, arith, All-append,
}
use openamp.Virtqueue.{Virtqueue, ShmIo, master, success, ring_index}
use openamp.Virtqueue.Driver.{Got, virtqueue_add_buffer, virtqueue_get_buffer}
use openamp.Virtqueue.Driver.Owned.{InFlight, IsDriver}
use openamp.Virtqueue.Driver.Add.{add_buffer-IsDriver}
use openamp.Virtqueue.Driver.Get.{returned, get_buffer-IsDriver, get_buffer-none}
use openamp.RpmsgVirtio.Posted.{HasBuffer, added-HasBuffer}
use openamp.Vring.{add16}
use openamp.RpmsgVirtio.{
  RpmsgVirtioDevice, Buffer, ShmPool, tx_got, pool_buffer, rpmsg_virtio_get_tx_buffer,
  rpmsg_virtio_enqueue_buffer, rpmsg_virtio_shm_pool_get_buffer, rpmsg_buffer_size,
}

module _ (dbg : Bool) (io : ShmIo) (rvdev : RpmsgVirtioDevice) (role : rvdev.role ≡ master) where
  pub tx-eq :
      (r : Option Got × Virtqueue)
      → virtqueue_get_buffer dbg rvdev.svq ≡ some r
      → rpmsg_virtio_get_tx_buffer dbg io rvdev ≡ some (tx_got dbg io rvdev r)
  unfolding rpmsg_virtio_get_tx_buffer
  tx-eq r e = rw (role, e) refl

  enqueue-eq :
      (vq vq' : Virtqueue) (pool : ShmPool) (b : Buffer)
      → virtqueue_add_buffer dbg io vq (record { buf = b.addr; len = b.len } ∷ []) 1 0 b.addr
        ≡ some (success, vq')
      → rpmsg_virtio_enqueue_buffer dbg io (record rvdev { svq = vq; shpool = pool }) b
        ≡ some (success, record rvdev { svq = vq'; shpool = pool })
  unfolding rpmsg_virtio_enqueue_buffer
  enqueue-eq vq vq' pool b e = ground (arith, role, e)

  -- While a buffer that was sent came back, a master sends it again: `rpmsg_virtio_get_tx_buffer`
  -- returns the buffer of the oldest chain that came back, and `rpmsg_virtio_enqueue_buffer` of it
  -- succeeds in its first descriptor; the pool is not touched.
  pub tx_again-IsDriver :
      (h : ℕ) (t free : List ℕ) (pre post : List (List ℕ))
      → IsDriver rvdev.svq free (pre ++ ((h ∷ t) ∷ post))
      → rvdev.svq.used_cons_idx ≢ rvdev.svq.vring.used_idx
      → (rvdev.svq.vring.used_ring (rvdev.svq.used_cons_idx % rvdev.svq.nentries)).id % 2 ^ 16 ≡ h
      → (b : Buffer) × (got sent : RpmsgVirtioDevice) × (rpmsg_virtio_get_tx_buffer dbg io rvdev
          ≡ some (some b, got))
        × (rpmsg_virtio_enqueue_buffer dbg io got b ≡ some (success, sent))
        × (b.addr ≡ (rvdev.svq.descx h).cookie)
        × IsDriver sent.svq (t ++ free) ((h ∷ []) ∷ (pre ++ post))
        × (sent.shpool ≡ rvdev.shpool)
  unfolding tx_got
  tx_again-IsDriver h t free pre post v ne hh =
      let cookie = (rvdev.svq.descx h).cookie in
      let entry = rvdev.svq.vring.used_ring (rvdev.svq.used_cons_idx % rvdev.svq.nentries) in
      let b : Buffer = record {
        addr = cookie;
        len = entry.len;
        idx = rvdev.svq.used_cons_idx % rvdev.svq.nentries;
      } in
      let flying =
        ((All-append (InFlight rvdev.svq.vring.desc rvdev.svq.descx) pre ((h ∷ t) ∷ post)).1
          v.in_flight).1 in
      let (l, eq, v') = get_buffer-IsDriver dbg rvdev.svq h t free pre post v ne hh in
      let (d, idx, eq', v'', _, _, _) =
        add_buffer-IsDriver dbg io (record { buf = b.addr; len = b.len } ∷ []) 1 0 cookie
          (returned dbg rvdev.svq h l) h [] (t ++ free) (pre ++ post) v' refl (omega arith)
          flying.0.1 in
      let nonnull : (cookie == 0) ≡ false = ground (arith, flying.0.1) in
      (
        b,
        record rvdev { svq = returned dbg rvdev.svq h l },
        _,
        tx-eq _ eq ∙ rw nonnull refl,
        enqueue-eq _ _ rvdev.shpool b eq',
        refl,
        v'',
        refl,
      )

  -- While no buffer came back and the pool has one left, a master takes it from the pool and sends
  -- it in the first free descriptor.
  pub tx_fresh-IsDriver :
      (x : ℕ) (rest : List ℕ) (busy : List (List ℕ))
      → IsDriver rvdev.svq (x ∷ rest) busy
      → rvdev.svq.used_cons_idx ≡ rvdev.svq.vring.used_idx
      → rpmsg_buffer_size ≤ rvdev.shpool.avail
      → rvdev.shpool.avail ≤ rvdev.shpool.size
      → 0 < rvdev.shpool.base
      → (b : Buffer) × (got sent : RpmsgVirtioDevice) × (rpmsg_virtio_get_tx_buffer dbg io rvdev
          ≡ some (some b, got))
        × (rpmsg_virtio_enqueue_buffer dbg io got b ≡ some (success, sent))
        × (b.addr ≡ rvdev.shpool.base + (rvdev.shpool.size - rvdev.shpool.avail))
        × (b.len ≡ rpmsg_buffer_size)
        × IsDriver sent.svq rest ((x ∷ []) ∷ busy)
        × (sent.shpool.avail + rpmsg_buffer_size ≡ rvdev.shpool.avail)
        × HasBuffer io sent.svq x b.addr rpmsg_buffer_size 0
        × (sent.svq.vring.avail_ring (ring_index rvdev.svq.vring.avail_idx rvdev.svq.nentries) ≡ x)
        × (sent.svq.vring.avail_idx ≡ add16 rvdev.svq.vring.avail_idx 1)
  unfolding tx_got
  tx_fresh-IsDriver x rest busy v e enough inside base =
      let pool = rvdev.shpool in
      let b : Buffer = record {
        addr = pool.base + pool.size - pool.avail;
        len = rpmsg_buffer_size;
        idx = 0;
      } in
      let left : ShmPool = record pool { avail = pool.avail - rpmsg_buffer_size } in
      let taken : pool_buffer 0 rvdev ≡ (some b, record rvdev { shpool = left }) =
        unfold pool_buffer rpmsg_virtio_shm_pool_get_buffer in ground arith in
      let (d, idx, eq', v'', fl, head, _) =
        add_buffer-IsDriver dbg io (record { buf = b.addr; len = b.len } ∷ []) 1 0 b.addr rvdev.svq
          x [] rest busy v refl (omega arith) (omega arith) in
      (
        b,
        _,
        _,
        tx-eq _ (get_buffer-none dbg rvdev.svq e) ∙ ap some taken,
        enqueue-eq _ _ left b eq',
        omega arith,
        refl,
        v'',
        omega arith,
        added-HasBuffer dbg io rvdev.svq d idx x b.addr rpmsg_buffer_size 1 0 (omega arith) head fl,
        ground (arith, head),
        refl,
      )

-- ===== src/RpmsgVirtio/Init/Fill.antt =====
-- lib/rpmsg/rpmsg_virtio.c: the loop of `rpmsg_init_vdev` that fills the receive queue of a master.
use openamp.Base.{
  ℕ, zero, suc, ◌+◌, ◌-◌, ◌*◌, ◌∙◌, ◌≤◌, ◌<◌, ◌≡◌, refl, Bool, some, List, [], ◌∷◌, arith, length,
}
use openamp.Virtqueue.{Virtqueue, ShmIo, success}
use openamp.Virtqueue.Driver.{virtqueue_add_buffer}
use openamp.Virtqueue.Driver.Add.{added, add_buffer-IsDriver}
use openamp.Virtqueue.Driver.Create.{upto}
use openamp.Virtqueue.Driver.Owned.{IsDriver}
use openamp.RpmsgVirtio.Posted.{HasBuffer, HasBuffer-same, HasBuffer-at, added-HasBuffer}
use openamp.RpmsgVirtio.{ShmPool, rpmsg_buffer_size, rpmsg_virtio_shm_pool_get_buffer}
use openamp.RpmsgVirtio.Init.{vq_status, fill_rvq}

pool_gives :
    (pool : ShmPool)
    → rpmsg_buffer_size ≤ pool.avail
    → rpmsg_virtio_shm_pool_get_buffer pool rpmsg_buffer_size ≡ (
      some (pool.base + pool.size - pool.avail),
      record pool { avail = pool.avail - rpmsg_buffer_size },
    )
unfolding rpmsg_virtio_shm_pool_get_buffer
pool_gives pool le = ground arith

module _ (dbg : Bool) (io : ShmIo) where
  -- A round of the loop.
  fill_step :
      (left addr : ℕ) (vq vq' : Virtqueue) (pool pool' : ShmPool)
      → rpmsg_virtio_shm_pool_get_buffer pool rpmsg_buffer_size ≡ (some addr, pool')
      → virtqueue_add_buffer dbg io vq
          (record { buf = addr; len = rpmsg_buffer_size } ∷ [])
          0
          1
          addr
        ≡ some (success, vq')
      → fill_rvq dbg io (suc left) vq pool ≡ fill_rvq dbg io left vq' pool'
  unfolding fill_rvq
  fill_step left addr vq vq' pool pool' eg ea = ground (arith, eg, ea)

  -- The first buffer of the pool in descriptor `i`, and the others behind it.
  fill_rvq-posted :
      (vq' : Virtqueue) (i left : ℕ) (pool : ShmPool)
      → HasBuffer io vq' i (pool.base + (pool.size - pool.avail)) rpmsg_buffer_size 2
      → rpmsg_buffer_size ≤ pool.avail
      → pool.avail ≤ pool.size
      → ((j : ℕ)
          → j < left
          → HasBuffer io vq'
              (i + 1 + j)
              (pool.base + (pool.size - (pool.avail - rpmsg_buffer_size)) + rpmsg_buffer_size * j)
              rpmsg_buffer_size
              2)
      → (j : ℕ) → j < suc left
      → HasBuffer io vq'
          (i + j)
          (pool.base + (pool.size - pool.avail) + rpmsg_buffer_size * j)
          rpmsg_buffer_size
          2
  fill_rvq-posted vq' i left pool first le inside others zero lt =
      HasBuffer-at io vq' (omega arith) (omega arith) first
  fill_rvq-posted vq' i left pool first le inside others (suc j) lt =
      HasBuffer-at io vq' (omega arith) (omega arith) (others j (omega arith))

  -- With the descriptors from `i` on free and as many buffers in the pool, the loop fills them all, one
  -- after the other, and leaves the descriptors before.
  pub fill_rvq-IsDriver :
      (left i : ℕ) (vq : Virtqueue) (busy : List (List ℕ)) (pool : ShmPool)
      → IsDriver vq (upto i left) busy
      → left * rpmsg_buffer_size ≤ pool.avail
      → pool.avail ≤ pool.size
      → 0 < pool.base
      → (vq' : Virtqueue) × (busy' : List (List ℕ)) × (pool' : ShmPool) × (fill_rvq dbg io left vq
            pool
          ≡ some (vq_status success, vq', pool'))
        × IsDriver vq' [] busy'
        × (length busy' ≡ left + length busy)
        × (pool'.avail + left * rpmsg_buffer_size ≡ pool.avail)
        × ((j : ℕ)
            → j < left
            → HasBuffer io vq'
                (i + j)
                (pool.base + (pool.size - pool.avail) + rpmsg_buffer_size * j)
                rpmsg_buffer_size
                2)
        × ((j : ℕ) → j < i → (vq'.vring.desc j ≡ vq.vring.desc j) × (vq'.descx j ≡ vq.descx j))
  unfolding fill_rvq
  fill_rvq-IsDriver zero i vq busy pool v fits inside based = (
    vq,
    busy,
    pool,
    refl,
    v,
    omega arith,
    omega arith,
    λ j lt. absurd (omega arith),
    λ j lt. (refl, refl),
  )
  fill_rvq-IsDriver (suc left) i vq busy pool v fits inside based =
      let addr = pool.base + pool.size - pool.avail in
      let (d, idx, eq, v', fl, head, keep) =
        add_buffer-IsDriver dbg io (record { buf = addr; len = rpmsg_buffer_size } ∷ []) 0 1 addr vq
          i [] (upto (i + 1) left) busy v refl (omega arith) (omega arith) in
      let vq1 =
        added dbg io (record { buf = addr; len = rpmsg_buffer_size } ∷ []) 0 1 addr vq d idx in
      let (vq', busy', pool', el, vl, chains, rest, posted, same) =
        fill_rvq-IsDriver left (i + 1) vq1 ((i ∷ []) ∷ busy)
          (record pool { avail = pool.avail - rpmsg_buffer_size }) v' (omega arith) (omega arith)
          based in
      (
        vq',
        busy',
        pool',
        fill_step left addr vq _ pool _ (pool_gives pool (omega arith)) eq ∙ el,
        vl,
        omega (arith, chains),
        omega (arith, rest),
        fill_rvq-posted vq' i left pool
            (HasBuffer-same io vq1 vq' (same i (omega arith)).0 (same i (omega arith)).1 (
              HasBuffer-at io vq1 refl (omega arith) (
                added-HasBuffer dbg io vq d idx i addr rpmsg_buffer_size 0 1 (omega arith) head
                  fl)))
            (omega arith) inside posted,
        λ j lt. (
          (same j (omega arith)).0 ∙ keep j (ground arith),
          (same j (omega arith)).1 ∙ ground (arith, head),
        ),
      )

-- ===== src/RpmsgVirtio/Pool.antt =====
-- lib/rpmsg/rpmsg_virtio.c: the buffers that the pool hands out, one after another.
use openamp.Base.{
  ℕ, zero, suc, ◌+◌, ◌*◌, ◌≤◌, ◌<◌, ◌≡◌, ◌⊎◌, refl, none, some, arith, leb, if◌then◌else◌,
}
use openamp.RpmsgVirtio.{ShmPool, rpmsg_virtio_init_shm_pool, rpmsg_virtio_shm_pool_get_buffer}

-- The pool after `n` requests of one size.
pub after_gets : (n size : ℕ) → ShmPool → ShmPool
after_gets zero size p = p
after_gets (suc n) size p = (rpmsg_virtio_shm_pool_get_buffer (after_gets n size p) size).1

module _ (base total size : ℕ) where
  abbrev start : ShmPool
  start = rpmsg_virtio_init_shm_pool base total

  after_gets-fixed :
      (n : ℕ) → ((after_gets n size start).base ≡ base) × ((after_gets n size start).size ≡ total)
  unfolding after_gets rpmsg_virtio_shm_pool_get_buffer rpmsg_virtio_init_shm_pool
  after_gets-fixed zero = (refl, refl)
  after_gets-fixed (suc n) = ground (arith, after_gets-fixed n)

  -- While the requests fit, each takes its size; from then on less than a request is left.
  after_gets-avail :
      (n : ℕ)
      → ((n * size ≤ total) × ((after_gets n size start).avail + n * size ≡ total))
        ⊎ ((total < n * size) × ((after_gets n size start).avail < size))
  unfolding after_gets rpmsg_virtio_shm_pool_get_buffer rpmsg_virtio_init_shm_pool
  after_gets-avail zero = ground arith
  after_gets-avail (suc n) =
      let product : suc n * size ≡ size + n * size = omega arith in
      ground (arith, after_gets-avail n, product)

  -- After `n` requests of one size to a new pool of `total` bytes, the next one gets the buffer
  -- that is `n` sizes behind the base, if it lies inside the pool, and else NULL.
  pub pool_buffers :
      (n : ℕ)
      → (rpmsg_virtio_shm_pool_get_buffer
          (after_gets n size (rpmsg_virtio_init_shm_pool base total))
          size).0
        ≡ (if leb (n * size + size) total then some (base + n * size) else none)
  unfolding rpmsg_virtio_shm_pool_get_buffer
  pool_buffers n = ground (arith, after_gets-avail n, after_gets-fixed n)

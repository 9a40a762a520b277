-- ===== src/RpmsgVirtio/Wait.antt =====
-- lib/rpmsg/rpmsg_virtio.c: what a master that has no buffer left answers to a request to send.
use openamp.Base.{
  ℕ, zero, suc, ◌-◌, ◌<◌, ◌≡◌, refl, Bool, true, false, ◌||◌, none, some, arith, ltb, if◌then◌else◌,
  ap, ◌∙◌,
}
use openamp.Rpmsg.{RpmsgError}
use openamp.Virtqueue.{ShmIo, master}
use openamp.Virtqueue.Driver.Get.{get_buffer-none}
use openamp.RpmsgVirtio.{
  RpmsgVirtioDevice, failed, tx_got, pool_buffer, rpmsg_virtio_get_tx_buffer, get_buffer_size,
  wait_round, wait_buffer, rpmsg_virtio_shm_pool_get_buffer, rpmsg_buffer_size, sizeof_rpmsg_hdr,
}
use openamp.RpmsgVirtio.Send.{tx-eq}

module _ (dbg : Bool) (io : ShmIo) (rvdev : RpmsgVirtioDevice) (role : rvdev.role ≡ master)
    (unused : rvdev.svq.used_cons_idx ≡ rvdev.svq.vring.used_idx)
    (drained : rvdev.shpool.avail < rpmsg_buffer_size) where
  tx-none : rpmsg_virtio_get_tx_buffer dbg io rvdev ≡ some (none, rvdev)
  unfolding tx_got
  tx-none =
      let empty : pool_buffer 0 rvdev ≡ (none, rvdev) =
        unfold pool_buffer rpmsg_virtio_shm_pool_get_buffer in ground arith in
      tx-eq dbg io rvdev role _ (get_buffer-none dbg rvdev.svq unused) ∙ ap some empty

  size-eq : get_buffer_size dbg io rvdev ≡ some (496, rvdev)
  unfolding get_buffer_size
  size-eq = rw role refl

  round-eq :
      (size : ℕ) (waits : Bool)
      → wait_round dbg io size waits rvdev
        ≡ some (
          failed (if waits || ltb 496 size then RpmsgError.buff_size else RpmsgError.no_buff),
          rvdev,
        )
  unfolding wait_round
  round-eq size true = ground (arith, size-eq, tx-none)
  round-eq size false = ground (arith, size-eq, tx-none)

  -- A master whose sent buffers have not come back and whose pool is used up answers a request to
  -- send at once and without a change: RPMSG_ERR_NO_BUFF where it is not to wait and the message fits
  -- into a buffer, else RPMSG_ERR_BUFF_SIZE. It never sleeps, whatever the ticks it is given.
  pub wait_buffer_drained :
      (sleep : RpmsgVirtioDevice → RpmsgVirtioDevice) (size tick_count : ℕ)
      → wait_buffer dbg io sleep size tick_count rvdev
        ≡ some (
          failed (
              if ltb 0 tick_count || ltb (rpmsg_buffer_size - sizeof_rpmsg_hdr) size
              then RpmsgError.buff_size
              else RpmsgError.no_buff),
          rvdev,
        )
  unfolding wait_buffer
  wait_buffer_drained sleep size zero = ground (arith, round-eq size false)
  wait_buffer_drained sleep size (suc n) = ground (arith, round-eq size true)

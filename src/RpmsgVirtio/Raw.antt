-- ===== src/RpmsgVirtio/Raw.antt =====
-- lib/rpmsg/rpmsg_virtio.c: `rpmsg_virtio_send_offchannel_raw` from end to end.
--
-- `M` is the shared memory and `block_write` is `metal_io_block_write` of libmetal at the offset of an
-- address: it returns how many bytes it wrote. The flags of the header are not set by the code, so they
-- are a parameter. An assertion that fails is an endless loop there and `none` here.
use openamp.Base.{
  ℕ, zero, suc, ◌+◌, ◌-◌, ◌%◌, ◌/◌, ◌≤◌, ◌<◌, ◌≡◌, ◌≢◌, refl, ap, subst, ◌∙◌, Bool, true, false,
  Option, none, some, List, [], ◌∷◌, ◌++◌, arith, bit_and, ◌==◌, if◌then◌else◌, ◌>>=◌, ◌>>◌, length,
  take,
}
use openamp.Rpmsg.{Ret, ok, err, RpmsgError, u32_bytes}
use openamp.Virtqueue.{ShmIo, master, is_success, busy, ring_index}
use openamp.Virtqueue.Driver.Owned.{IsDriver}
use openamp.Virtqueue.Notify.{virtqueue_kick}
use openamp.RpmsgVirtio.{
  status_driver_ok, RpmsgVirtioDevice, Buffer, got, failed, again, wait_buffer,
  rpmsg_virtio_enqueue_buffer, rpmsg_buffer_size, sizeof_rpmsg_hdr, wait_round, get_buffer_size,
  rpmsg_virtio_get_tx_buffer,
}
use openamp.Virtqueue.Notify.Kick.{kick-IsDriver}
use openamp.RpmsgVirtio.Posted.{HasBuffer, HasBuffer-same}
use openamp.Vring.{add16}
use openamp.RpmsgVirtio.Send.{tx_fresh-IsDriver}

-- RPMSG_TICK_COUNT / RPMSG_TICKS_PER_INTERVAL
abbrev tick_rounds : ℕ
tick_rounds = 15000

-- RPMSG_ASSERT
abbrev rpmsg_assert : Bool → Option (Unit {0})
rpmsg_assert true = some tt
rpmsg_assert false = none

-- The packed bytes of `struct rpmsg_hdr`.
pub hdr_bytes : (src dst len flags : ℕ) → List ℕ
hdr_bytes src dst len flags =
    u32_bytes src
    ++ (u32_bytes dst
        ++ (u32_bytes 0 ++ (len % 256 ∷ len / 256 % 256 ∷ flags % 256 ∷ flags / 256 % 256 ∷ [])))

module _ (dbg : Bool) (io : ShmIo) {M : Type 0} (block_write : M → (addr : ℕ) → List ℕ → ℕ × M)
    (sleep : RpmsgVirtioDevice → RpmsgVirtioDevice) (hdr_flags : ℕ) where
  -- The part behind the loop: header, payload, enqueue and kick.
  pub fill_and_send :
      M
      → (src dst : ℕ) → (payload : List ℕ) → (size : ℕ) → Buffer
      → RpmsgVirtioDevice
      → Option (Ret × RpmsgVirtioDevice × M)
  unfolding hdr_bytes
  fill_and_send mem src dst payload size b rvdev = do
    let (n, mem) = block_write mem b.addr (hdr_bytes src dst size hdr_flags)
    rpmsg_assert (n == sizeof_rpmsg_hdr)
    let (n, mem) = block_write mem (b.addr + sizeof_rpmsg_hdr) (take size payload)
    rpmsg_assert (n == size)
    (status, rvdev) ← rpmsg_virtio_enqueue_buffer dbg io rvdev b
    rpmsg_assert (is_success status)
    (notified, vq) ← virtqueue_kick dbg rvdev.svq
    some (ok size, record rvdev { svq = vq }, mem)

  -- `rpmsg_virtio_send_offchannel_raw`, where the device has the given status
  pub send_offchannel_raw :
      RpmsgVirtioDevice
      → M
      → (status src dst : ℕ) → (payload : List ℕ) → (size : ℕ) → (wait : Bool)
      → Option (Ret × RpmsgVirtioDevice × M)
  unfolding fill_and_send
  send_offchannel_raw rvdev mem status src dst payload size wait =
      if bit_and status status_driver_ok == 0
      then some (err RpmsgError.dev_state, rvdev, mem)
      else (do
        (r, rvdev) ← wait_buffer dbg io sleep size (if wait then tick_rounds else 0) rvdev
        elim r [
          | got b ↦ fill_and_send mem src dst payload size b rvdev
          | failed e ↦ some (err e, rvdev, mem)
          | again ↦ none
        ])

length-hdr : (src dst len flags : ℕ) → length (hdr_bytes src dst len flags) ≡ sizeof_rpmsg_hdr
unfolding hdr_bytes
length-hdr src dst len flags = refl

module _ (dbg : Bool) (io : ShmIo) {M : Type 0} (block_write : M → (addr : ℕ) → List ℕ → ℕ × M)
    (whole : (mem : M) (addr : ℕ) (bytes : List ℕ) → (block_write mem addr bytes).0 ≡ length bytes)
    (sleep : RpmsgVirtioDevice → RpmsgVirtioDevice) (hdr_flags : ℕ) (rvdev : RpmsgVirtioDevice)
    (role : rvdev.role ≡ master) (size : ℕ)
    (fits : size ≤ rpmsg_buffer_size - sizeof_rpmsg_hdr) where
  wait_round-got :
      (waits : Bool) (b : Buffer) (rvdev' : RpmsgVirtioDevice)
      → rpmsg_virtio_get_tx_buffer dbg io rvdev ≡ some (some b, rvdev')
      → wait_round dbg io size waits rvdev ≡ some (got b, rvdev')
  unfolding wait_round get_buffer_size
  wait_round-got waits b rvdev' e = ground (arith, role, e)

  wait_buffer-got :
      (ticks : ℕ) (b : Buffer) (rvdev' : RpmsgVirtioDevice)
      → rpmsg_virtio_get_tx_buffer dbg io rvdev ≡ some (some b, rvdev')
      → wait_buffer dbg io sleep size ticks rvdev ≡ some (got b, rvdev')
  unfolding wait_buffer
  wait_buffer-got zero b rvdev' e = wait_round-got false b rvdev' e
  wait_buffer-got (suc n) b rvdev' e = rw (wait_round-got true b rvdev' e) refl

  -- A master in the state DRIVER_OK, with a free descriptor, no buffer that came back, and a pool
  -- whose base is not NULL, which has a buffer left and no more than its size, sends a message
  -- that fits into a buffer and whose payload has that many bytes, whether it may wait or not,
  -- where block writes write all bytes. The result is the size. The header with source,
  -- destination, 0, length and flags is written to the next buffer of the pool, the payload behind
  -- it, and nothing else. The first free descriptor is in flight and holds this buffer, for the
  -- other side to read; its head is in the next slot of the available ring, whose index is one
  -- more. The queue was kicked, so that its counter of unannounced buffers is 0, and the pool is
  -- less by one buffer.
  pub send_fresh-IsDriver :
      (mem : M) (status src dst : ℕ) (payload : List ℕ) (wait : Bool) (x : ℕ) (rest : List ℕ)
      (busy : List (List ℕ))
      → bit_and status 4 ≢ 0
      → length (take size payload) ≡ size
      → IsDriver rvdev.svq (x ∷ rest) busy
      → rvdev.svq.used_cons_idx ≡ rvdev.svq.vring.used_idx
      → rpmsg_buffer_size ≤ rvdev.shpool.avail
      → rvdev.shpool.avail ≤ rvdev.shpool.size
      → 0 < rvdev.shpool.base
      → let addr = rvdev.shpool.base + (rvdev.shpool.size - rvdev.shpool.avail) in
        let hdr =
          u32_bytes src
          ++ (u32_bytes dst
              ++ (u32_bytes 0
                  ++ (size % 256
                      ∷ size / 256 % 256
                      ∷ hdr_flags % 256
                      ∷ hdr_flags / 256 % 256
                      ∷ []))) in
        (sent : RpmsgVirtioDevice) × (send_offchannel_raw dbg io block_write sleep hdr_flags rvdev
            mem status src dst payload size wait
          ≡ some (
            ok size,
            sent,
            (block_write (block_write mem addr hdr).1 (addr + 16) (take size payload)).1,
          ))
        × IsDriver sent.svq rest ((x ∷ []) ∷ busy)
        × HasBuffer io sent.svq x addr rpmsg_buffer_size 0
        × (sent.svq.vring.avail_ring (ring_index rvdev.svq.vring.avail_idx rvdev.svq.nentries) ≡ x)
        × (sent.svq.vring.avail_idx ≡ add16 rvdev.svq.vring.avail_idx 1)
        × (sent.svq.queued_cnt ≡ 0)
        × (sent.shpool.avail + rpmsg_buffer_size ≡ rvdev.shpool.avail)
  unfolding send_offchannel_raw fill_and_send hdr_bytes
  send_fresh-IsDriver mem status src dst payload wait x rest busy ready long v e enough inside
        base =
      let (b, got', sent, eq, eq', ba, _, v', less, hb, slot, next) =
        tx_fresh-IsDriver dbg io rvdev role x rest busy v e enough inside base in
      let (n, vq, kicked, v'', ev) = kick-IsDriver dbg sent.svq rest ((x ∷ []) ∷ busy) v' in
      let hdr = hdr_bytes src dst size hdr_flags in
      let m1 = (block_write mem b.addr hdr).1 in
      (
        record sent { svq = vq },
        subst
            (λ a.
              send_offchannel_raw dbg io block_write sleep hdr_flags rvdev mem status src dst
                payload size wait
              ≡ some (
                ok size,
                record sent { svq = vq },
                (block_write (block_write mem a hdr).1 (a + 16) (take size payload)).1,
              ))
            ba
            (ground (
              arith,
              wait_buffer-got (if wait then tick_rounds else 0) b got' eq,
              eq',
              kicked,
              whole mem b.addr hdr,
              length-hdr src dst size hdr_flags,
              whole m1 (b.addr + sizeof_rpmsg_hdr) (take size payload),
              long,
            )),
        v'',
        HasBuffer-same io sent.svq vq (ap (λ q. q.vring.desc x) ev) (ap (λ q. q.descx x) ev)
            (subst (λ a. HasBuffer io sent.svq x a rpmsg_buffer_size 0) ba hb),
        ap (λ q. q.vring.avail_ring (ring_index rvdev.svq.vring.avail_idx rvdev.svq.nentries)) ev
            ∙ slot,
        ap (λ q. q.vring.avail_idx) ev ∙ next,
        ap (λ q. q.queued_cnt) ev,
        less,
      )

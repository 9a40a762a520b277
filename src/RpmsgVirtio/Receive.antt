-- ===== src/RpmsgVirtio/Receive.antt =====
-- lib/rpmsg/rpmsg_virtio.c: `rpmsg_virtio_rx_callback` and `rpmsg_virtio_ns_callback`.
--
-- `T` is the state of the application and of the shared memory, `peek` reads a byte of that memory. A
-- callback of an endpoint is a step of everything that the device has, `RxState`. The loop over the
-- received messages runs on fuel, `none` is also what an assertion that fails gives.
pub mod Serve
pub mod Announce
use openamp.Base.{
  ℕ, zero, suc, ◌+◌, ◌*◌, Bool, true, false, not, ◌&&◌, Option, none, some, List, ◌==◌, bit_and,
  if◌then◌else◌, ◌>>=◌,
}
use openamp.Base.Array.{update}
use openamp.Base.Int.{ℤ, pos, negsuc, is_negative}
use openamp.Rpmsg.{RpmsgEndpoint, RpmsgDevice, addr_any, ns_destroy, sizeof_ns_msg, u32_of}
use openamp.Rpmsg.Endpoint.{rpmsg_get_endpoint, rpmsg_get_ept_from_addr}
use openamp.Virtqueue.{ShmIo, Role, master, slave}
use openamp.Virtqueue.Notify.{virtqueue_kick}
use openamp.RpmsgVirtio.{
  RpmsgVirtioDevice, Buffer, rpmsg_virtio_get_rx_buffer, rpmsg_virtio_return_buffer,
  sizeof_rpmsg_hdr,
}

pub record RxState (B T : Type 0) : Type 0 where
  pub rvdev : RpmsgVirtioDevice
  pub rdev : RpmsgDevice B
  pub app : T

-- `ept->cb` of the endpoint `ept`
abbrev pub Callback : (B T : Type 0) → Type 0
Callback B T = RxState B T → (ept addr len src : ℕ) → ℤ × RxState B T

abbrev pub set_dest : {B : Type 0} → RpmsgDevice B → (ept dest : ℕ) → RpmsgDevice B
set_dest rdev ept dest = record rdev {
  eps = update rdev.eps ept (record (rdev.eps ept) { dest_addr = dest });
}

module _ {T : Type 0} (peek : T → (addr : ℕ) → ℕ) where
  -- A `uint32_t` and a `uint16_t` of the shared memory, and the fields of `struct rpmsg_hdr`
  abbrev pub peek32 : T → (addr : ℕ) → ℕ
  peek32 t addr = u32_of (peek t addr) (peek t (addr + 1)) (peek t (addr + 2)) (peek t (addr + 3))

  abbrev pub peek16 : T → (addr : ℕ) → ℕ
  peek16 t addr = peek t addr + 256 * peek t (addr + 1)

-- A kick of the receive queue where there is no further message.
pub kick_if_none :
    (dbg : Bool) → Option Buffer × RpmsgVirtioDevice → Option (Option Buffer × RpmsgVirtioDevice)
kick_if_none dbg (some b, rvdev) = some (some b, rvdev)
kick_if_none dbg (none, rvdev) = do
  (notified, vq) ← virtqueue_kick dbg rvdev.rvq
  some (none, record rvdev { rvq = vq })

module _ {B T : Type 0} (peek : T → (addr : ℕ) → ℕ) (cb : Callback B T) where
  -- The call of the endpoint's callback, and the assertion on its result.
  pub call_back : RxState B T → (ept addr : ℕ) → Option (RxState B T)
  call_back s ept addr =
      let (status, s') =
        cb s ept (addr + sizeof_rpmsg_hdr) (peek16 peek s.app (addr + 12))
          (peek32 peek s.app addr) in
      if is_negative status then none else some s'

  -- The first message from the other side gives the endpoint its destination.
  abbrev pub learn_dest : RxState B T → (ept addr : ℕ) → RxState B T
  learn_dest s ept addr =
      if (s.rdev.eps ept).dest_addr == addr_any
      then record s { rdev = set_dest s.rdev ept (peek32 peek s.app addr) }
      else s

  -- A received message goes to the endpoint that has its destination address, if there is one.
  pub deliver : RxState B T → Buffer → Option (RxState B T)
  unfolding call_back
  deliver s b = elim (rpmsg_get_ept_from_addr s.rdev (peek32 peek s.app (b.addr + 4))) [
    | none ↦ some s
    | some ept ↦ call_back (learn_dest s ept b.addr) ept b.addr
  ]

  module _ (dbg : Bool) (io : ShmIo) where
    -- The body of the loop: the message that is there is delivered and its buffer returned, then the
    -- next one is looked for.
    pub rx_round : RxState B T → Buffer → Option (Option Buffer × RxState B T)
    unfolding deliver kick_if_none
    rx_round s b = do
      s ← deliver s b
      rvdev ← rpmsg_virtio_return_buffer dbg io s.rvdev b
      r ← rpmsg_virtio_get_rx_buffer dbg io rvdev
      (next, rvdev) ← kick_if_none dbg r
      some (next, record s { rvdev = rvdev })

    pub rx_loop : (fuel : ℕ) → RxState B T → Option Buffer → Option (RxState B T)
    unfolding rx_round
    rx_loop fuel s none = some s
    rx_loop zero s (some b) = none
    rx_loop (suc fuel) s (some b) = do (next, s) ← rx_round s b; rx_loop fuel s next

    -- `rpmsg_virtio_rx_callback`
    pub rx_callback : (fuel : ℕ) → RxState B T → Option (RxState B T)
    unfolding rx_loop
    rx_callback fuel s = do
      (b, rvdev) ← rpmsg_virtio_get_rx_buffer dbg io s.rvdev
      rx_loop fuel (record s { rvdev = rvdev }) b

-- What the name service callback of an application is told: the unbinding of an endpoint, with the endpoint
-- that is handed to it, and a new service.
pub data NsEvent : Type 0 where
  unbind : (of_ept given : ℕ) → NsEvent
  bind : (name : List ℕ) → (dest : ℕ) → NsEvent

-- `rpmsg_virtio_ns_callback`, for the name service endpoint `ns_ept`, with the fields of the message;
-- `len` is the length of the data. The event is what the application is told at the end.
pub ns_callback :
    {B : Type 0}
    → RpmsgDevice B
    → (ns_ept len : ℕ) → (name : List ℕ) → (dest flags : ℕ) → Option NsEvent × RpmsgDevice B
ns_callback rdev ns_ept len name dest flags =
    if not (len == sizeof_ns_msg)
    then (none, rdev)
    else (let found = rpmsg_get_endpoint rdev (some name) addr_any dest in
        if not (bit_and flags ns_destroy == 0)
        then elim found [
          | none ↦ (none, rdev)
          | some ept ↦ (
            (if (rdev.eps ept).ns_unbind_cb == 0 then none else some (unbind ept ns_ept)),
            set_dest rdev ept addr_any,
          )
        ]
        else elim found [
          | none ↦ ((if rdev.ns_bind_cb then some (bind name dest) else none), rdev)
          | some ept ↦ (none, set_dest rdev ept dest)
        ])

-- ===== src/RpmsgVirtio/Receive/Serve.antt =====
-- lib/rpmsg/rpmsg_virtio.c: the loop of `rpmsg_virtio_rx_callback` on a master ends, and every buffer is
-- returned.
use openamp.Base.{
  ℕ, suc, ◌<◌, ◌≡◌, ◌≢◌, ◌∙◌, ap, Bool, none, some, List, [], ◌∷◌, arith, ◌⊎◌, inl, inr,
}
use openamp.Virtqueue.{Virtqueue, ShmIo, master}
use openamp.Virtqueue.Protocol.Invariant.{IsShared}
use openamp.Virtqueue.Protocol.DriverMoves.{add-next, collect-next}
use openamp.Virtqueue.Protocol.Safety.{zero_or_suc, none_used}
use openamp.RpmsgVirtio.{
  RpmsgVirtioDevice, Buffer, of_got, rpmsg_virtio_get_rx_buffer, rpmsg_virtio_return_buffer,
}

-- The receive queue of a master with the other core at it, with `n` messages waiting and `offered`
-- buffers for further ones.
pub record IsReceiving (rvdev : RpmsgVirtioDevice) (n offered : ℕ) : Type 0 where
  pub role : rvdev.role ≡ master
  pub device : Virtqueue
  pub held : List ℕ
  pub shared : IsShared (record { driver = rvdev.rvq; device = device; held = held })
  pub waiting : shared.nused ≡ n
  pub available : shared.navail ≡ offered

module _ (dbg : Bool) (io : ShmIo) where
  -- With `n` messages waiting, taking one either finds none, for `n` of 0, or leaves one less and a free
  -- descriptor.
  pub get_rx-IsReceiving :
      (rvdev : RpmsgVirtioDevice) (n o : ℕ)
      → IsReceiving rvdev n o
      → ((n ≡ 0) × (rpmsg_virtio_get_rx_buffer dbg io rvdev ≡ some (none, rvdev)))
        ⊎ ((b : Buffer) × (m : ℕ) × (rvdev' : RpmsgVirtioDevice) × (n ≡ suc m)
            × (rpmsg_virtio_get_rx_buffer dbg io rvdev ≡ some (some b, rvdev'))
            × IsReceiving rvdev' m o
            × (0 < rvdev'.rvq.free_cnt)
            × (b.addr ≢ 0))
  unfolding rpmsg_virtio_get_rx_buffer
  get_rx-IsReceiving rvdev n o r = elim (zero_or_suc n) [
    | inl e ↦
        let eq = none_used dbg io r.shared (r.waiting ∙ e) in inl (e, ground (arith, r.role, eq))
    | inr (m, e) ↦
        let (g, vq, eq, v', left, same, free, cookie, _) =
          collect-next dbg io r.shared m (r.waiting ∙ e) in
        inr (
          of_got g,
          m,
          record rvdev { rvq = vq },
          e,
          ground (arith, r.role, eq),
          record {
            role = r.role;
            device = record r.device { vring = vq.vring };
            held = r.held;
            shared = v';
            waiting = left;
            available = same ∙ r.available;
          },
          free,
          cookie,
        )
  ]

  -- With a free descriptor, a buffer goes back and the messages wait on.
  pub return-IsReceiving :
      (rvdev : RpmsgVirtioDevice) (n o : ℕ) (b : Buffer)
      → IsReceiving rvdev n o
      → 0 < rvdev.rvq.free_cnt
      → b.addr ≢ 0
      → (rvdev' : RpmsgVirtioDevice) × (rpmsg_virtio_return_buffer dbg io rvdev b ≡ some rvdev')
        × IsReceiving rvdev' n (suc o)
  unfolding rpmsg_virtio_return_buffer
  return-IsReceiving rvdev n o b r free addr =
      let (vq, eq, v', left, more, _) =
        add-next dbg io r.shared (record { buf = b.addr; len = b.len } ∷ []) 0 1 b.addr addr
          (omega arith) (omega arith) (omega arith) in
      (
        record rvdev { rvq = vq },
        ground (arith, r.role, eq),
        record {
          role = r.role;
          device = record r.device { vring = vq.vring };
          held = r.held;
          shared = v';
          waiting = left ∙ r.waiting;
          available = more ∙ ap suc r.available;
        },
      )

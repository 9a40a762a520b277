-- ===== src/Virtqueue/Protocol.antt =====
-- lib/virtio/virtqueue.c: two cores at one ring, whose steps come in any order. The driver adds buffers
-- and collects used ones, the device takes available buffers and returns them in any order. The kick and
-- the switching of callbacks are in Virtqueue/Notify.antt and are no steps here.
--
-- `System` has the `struct virtqueue` of each side; both see the same ring memory, so a step copies
-- the memory that it wrote to the other side. `held` lists the chains that the device has taken and
-- not yet returned, by their heads.
pub mod Invariant
pub mod DriverMoves
pub mod DeviceMoves
pub mod Safety
use openamp.Base.{ℕ, ◌+◌, ◌≤◌, ◌<◌, ◌≡◌, ◌≢◌, Bool, Option, none, some, List, [], ◌∷◌, ◌++◌, length}
use openamp.Virtqueue.{Virtqueue, VirtqueueBuf, ShmIo, Status, success}
use openamp.Virtqueue.Driver.{Got, virtqueue_add_buffer, virtqueue_get_buffer}
use openamp.Virtqueue.Device.{
  Available, virtqueue_get_available_buffer, virtqueue_add_consumed_buffer,
}

pub record System : Type 0 where
  pub driver : Virtqueue
  pub device : Virtqueue
  pub held : List ℕ

-- The driver or the device goes on to a new state, and the other side sees its writes.
abbrev pub driver_moves : System → Virtqueue → System
driver_moves s vq = record s { driver = vq; device = record s.device { vring = vq.vring } }

abbrev pub device_moves : System → Virtqueue → List ℕ → System
device_moves s vq held = record {
  driver = record s.driver { vring = vq.vring };
  device = vq;
  held = held;
}

module _ (dbg : Bool) (io : ShmIo) where
  -- The calls that each side may make: a request of one or more buffers, all in the list, that fit into
  -- the free descriptors, with a cookie that is not NULL; a buffer that is available; the return of
  -- a chain that is held; a used buffer.
  pub data Step (s : System) : System → Type 0 where
    add :
        (bufs : List VirtqueueBuf) (readable writable cookie : ℕ) (vq : Virtqueue)
        → cookie ≢ 0
        → 0 < readable + writable
        → readable + writable ≤ length bufs
        → readable + writable ≤ s.driver.free_cnt
        → virtqueue_add_buffer dbg io s.driver bufs readable writable cookie ≡ some (success, vq)
        → Step s (driver_moves s vq)
    take :
        (a : Available) (vq : Virtqueue)
        → virtqueue_get_available_buffer dbg io s.device ≡ some (some a, vq)
        → Step s (device_moves s vq (a.avail_idx ∷ s.held))
    return :
        (pre post : List ℕ) (h len : ℕ) (vq : Virtqueue)
        → s.held ≡ pre ++ (h ∷ post)
        → virtqueue_add_consumed_buffer dbg s.device h len ≡ some (success, vq)
        → Step s (device_moves s vq (pre ++ post))
    collect :
        (g : Got) (vq : Virtqueue)
        → virtqueue_get_buffer dbg s.driver ≡ some (some g, vq)
        → Step s (driver_moves s vq)

  pub data Reach (s : System) : System → Type 0 where
    here : Reach s s
    next : {t u : System} → Reach s t → Step t u → Reach s u

-- ===== src/Virtqueue/Tests.antt =====
-- The theorems of the virtqueue applied to rings of four descriptors.
use openamp.Base.{
  ℕ, ◌≤◌, ◌<◌, ◌≡◌, ◌↔◌, refl, inl, true, false, Option, none, some, [], ◌∷◌, ◌++◌, arith, count,
}
use openamp.Vring.{VringDesc}
use openamp.Virtqueue.{Virtqueue, master, success, ring_f_event_idx}
use openamp.Virtqueue.Examples.{
  flat, two_bufs, idle_queue, busy_queue, idle_system, available_system, held_system, ring,
  no_flags, device_of, idle-IsDriver, busy-IsDriver, idle-IsShared, available-IsShared,
  held-IsShared,
}
use openamp.Virtqueue.Driver.{virtqueue_create, virtqueue_add_buffer, virtqueue_get_buffer, Got}
use openamp.Virtqueue.Driver.Chain.{Filled}
use openamp.Virtqueue.Driver.Owned.{IsDriver}
use openamp.Virtqueue.Driver.Add.{added, add_buffer-IsDriver}
use openamp.Virtqueue.Driver.Get.{returned, get_buffer-IsDriver}
use openamp.Virtqueue.Driver.Create.{create-IsDriver}
use openamp.Virtqueue.Driver.Errors.{add_buffer_short}
use openamp.Virtqueue.Device.{
  Available, virtqueue_get_available_buffer, virtqueue_add_consumed_buffer,
}
use openamp.Virtqueue.Notify.{vq_ring_must_notify, virtqueue_disable_cb, virtqueue_enable_cb}
use openamp.Virtqueue.Notify.Suppress.{event_control}
use openamp.Virtqueue.Protocol.{here, next, add, driver_moves, device_moves}
use openamp.Virtqueue.Protocol.Invariant.{IsShared, available}
use openamp.Virtqueue.Protocol.DriverMoves.{add-IsShared}
use openamp.Virtqueue.Protocol.DeviceMoves.{used_entries, take-IsShared, return-IsShared}
use openamp.Virtqueue.Protocol.Safety.{Reach-safe}

add_buffer-IsDriver_example :
    (d : ℕ → VringDesc) × (idx : ℕ) × (virtqueue_add_buffer true flat idle_queue two_bufs 1 1 77
      ≡ some (success, added true flat two_bufs 1 1 77 idle_queue d idx))
    × IsDriver (added true flat two_bufs 1 1 77 idle_queue d idx) (2 ∷ 3 ∷ []) ((0 ∷ 1 ∷ []) ∷ [])
    × Filled flat two_bufs 1 2 0 d (0 ∷ 1 ∷ [])
    × (idle_queue.desc_head_idx ≡ 0)
    × ((j : ℕ) → count j (0 ∷ 1 ∷ []) ≡ 0 → d j ≡ idle_queue.vring.desc j)
add_buffer-IsDriver_example =
    add_buffer-IsDriver true flat two_bufs 1 1 77 idle_queue 0 (1 ∷ []) (2 ∷ 3 ∷ []) []
      idle-IsDriver refl (omega arith) (omega arith)

get_buffer-IsDriver_example :
    (l : ℕ) × (virtqueue_get_buffer true (busy_queue 1)
      ≡ some (some (record { cookie = 77; len = 100; idx = 0 }), returned true (busy_queue 1) 0 l))
    × IsDriver (returned true (busy_queue 1) 0 l) (0 ∷ 1 ∷ 2 ∷ 3 ∷ []) []
get_buffer-IsDriver_example =
    get_buffer-IsDriver true (busy_queue 1) 0 (1 ∷ []) (2 ∷ 3 ∷ []) [] [] (busy-IsDriver 1)
      (omega arith) refl

create-IsDriver_example :
    (vq' : Virtqueue) × (virtqueue_create true master 0 7 4 (ring 0 0 no_flags) true true idle_queue
      ≡ some (success, vq'))
    × IsDriver vq' (0 ∷ 1 ∷ 2 ∷ 3 ∷ []) []
    × (vq'.nentries ≡ 4)
create-IsDriver_example =
    create-IsDriver true 0 7 2 (ring 0 0 no_flags) true true idle_queue (omega arith) refl refl refl
      (λ j. refl)

add_buffer_short_example : virtqueue_add_buffer true flat (busy_queue 0) two_bufs 2 1 78 ≡ none
add_buffer_short_example =
    add_buffer_short true flat two_bufs 2 1 78 (busy_queue 0) 2 (3 ∷ []) ((0 ∷ 1 ∷ []) ∷ [])
      (busy-IsDriver 0) (omega arith)

Reach-safe_example :
    let t =
      driver_moves idle_system
        (add-IsShared true flat idle-IsShared two_bufs 1 1 77
          (omega arith)
          (omega arith)
          (omega arith)
          (omega arith)).0 in
    (v : IsShared t) × ((p : Option Available × Virtqueue) × (virtqueue_get_available_buffer true
          flat t.device
        ≡ some p)
      × ((p.0 ≡ none) ↔ (v.navail ≡ 0)))
    × ((p : Option Got × Virtqueue) × (virtqueue_get_buffer true t.driver ≡ some p)
        × ((p.0 ≡ none) ↔ (v.nused ≡ 0)))
Reach-safe_example = Reach-safe true flat idle-IsShared (
    next here (
      add two_bufs 1 1 77
        (add-IsShared true flat idle-IsShared two_bufs 1 1 77 (omega arith) (omega arith)
          (omega arith) (omega arith)).0
        (omega arith) (omega arith) (omega arith) (omega arith)
        (add-IsShared true flat idle-IsShared two_bufs 1 1 77 (omega arith) (omega arith)
          (omega arith) (omega arith)).1))

add-IsShared_example :
    (vq : Virtqueue) × (virtqueue_add_buffer true flat idle_queue two_bufs 1 1 77
      ≡ some (success, vq))
    × (v' : IsShared (driver_moves idle_system vq)) × (v'.nused ≡ idle-IsShared.nused)
    × (available (driver_moves idle_system vq) v'.navail
        ≡ available idle_system idle-IsShared.navail ++ (0 ∷ []))
add-IsShared_example =
    add-IsShared true flat idle-IsShared two_bufs 1 1 77 (omega arith) (omega arith) (omega arith)
      (omega arith)

take-IsShared_example :
    (vq : Virtqueue) × (virtqueue_get_available_buffer true flat available_system.device
      ≡ some (some (record { buffer = 0x1000; avail_idx = 0; len = 512 }), vq))
    × IsShared (device_moves available_system vq (0 ∷ []))
take-IsShared_example = take-IsShared true flat available-IsShared 0 refl

return-IsShared_example :
    (vq : Virtqueue) × (virtqueue_add_consumed_buffer true held_system.device 0 100
      ≡ some (success, vq))
    × (v' : IsShared (device_moves held_system vq [])) × (used_entries
          (device_moves held_system vq [])
          v'.nused
        ≡ record { id = 0; len = 100 } ∷ [])
return-IsShared_example = return-IsShared true flat held-IsShared [] [] 0 100 refl

-- The pair of queues of `used_system` with VIRTIO_RING_F_EVENT_IDX, one entry since the last kick.
abbrev event_driver : Virtqueue
event_driver = record (busy_queue 1) { features = ring_f_event_idx }

abbrev event_device : Virtqueue
event_device = record (device_of (busy_queue 1).vring 1) {
  features = ring_f_event_idx;
  queued_cnt = 1;
}

event_control_example :
    ((off : Virtqueue) × (virtqueue_disable_cb true event_driver ≡ some off)
      × (vq_ring_must_notify (record event_device { vring = off.vring }) ≡ false))
    × ((on : Virtqueue) × (virtqueue_enable_cb true event_driver ≡ some (true, on))
        × ((vq_ring_must_notify (record event_device { vring = on.vring }) ≡ true)
            ↔ ((0 < 1) × (1 ≤ 1))))
event_control_example =
    event_control true event_driver event_device
      (record { roles = inl (refl, refl); event_idx = refl }) refl refl (omega arith) (omega arith)
      (omega arith) (omega arith) (omega arith) (omega arith) (omega arith)

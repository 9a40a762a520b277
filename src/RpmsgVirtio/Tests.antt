-- ===== src/RpmsgVirtio/Tests.antt =====
-- The theorems of the buffers applied to a pool of three buffers and to rings of four descriptors.
use openamp.Base.{
  ◌*◌, false, ℕ, ◌+◌, ◌≡◌, refl, true, some, List, [], ◌∷◌, arith, length, ◌<◌, Bool,
}
use openamp.Virtqueue.{Virtqueue, master, success}
use openamp.Virtqueue.Driver.Owned.{IsDriver}
use openamp.Virtqueue.Examples.{flat, idle_queue, busy_queue, idle-IsDriver, ring, no_flags}
use openamp.RpmsgVirtio.{failed, wait_buffer, RpmsgVirtioDevice, ShmPool}
use openamp.RpmsgVirtio.Raw.{send_offchannel_raw, send_fresh-IsDriver}
use openamp.Rpmsg.{ok, RpmsgError, addr_bmp_size, RpmsgDevice}
use openamp.RpmsgVirtio.Posted.{HasBuffer}
use openamp.RpmsgVirtio.Wait.{wait_buffer_drained}
use openamp.RpmsgVirtio.Init.{
  VringInfo, VdevOps, InitState, rpmsg_init_vdev, rpmsg_deinit_vdev, vq_status,
}
use openamp.RpmsgVirtio.Init.Close.{deinit_vdev-empty}
use openamp.RpmsgVirtio.Init.Ready.{IsNew, init_vdev-IsDriver}
use openamp.Rpmsg.Tests.{device, bits, bits-IsBitmap, counting, device-IsRegistry}
use openamp.RpmsgVirtio.Receive.{RxState, Callback}
use openamp.Base.Int.{pos}

abbrev device_with : Virtqueue → RpmsgVirtioDevice
device_with svq = record {
  role = master;
  rvq = idle_queue;
  svq = svq;
  shpool = record { base = 0x1000; avail = 1024; size = 2048 };
}

-- A master with no buffer left.
abbrev drained : RpmsgVirtioDevice
drained = record (device_with idle_queue) {
  shpool = record { base = 0x1000; avail = 100; size = 2048 };
}

wait_buffer_drained_example :
    wait_buffer true flat (λ d. d) 20 15000 drained ≡ some (failed RpmsgError.buff_size, drained)
wait_buffer_drained_example =
    wait_buffer_drained true flat drained refl refl (omega arith) (λ d. d) 20 15000

-- A memory that records what is written to it, the last first.
abbrev Writes : Type 0
Writes = List (ℕ × List ℕ)

abbrev recorded_write : Writes → (addr : ℕ) → List ℕ → ℕ × Writes
recorded_write m addr bytes = (length bytes, (addr, bytes) ∷ m)

send_fresh-IsDriver_example :
    (sent : RpmsgVirtioDevice) × (send_offchannel_raw true flat recorded_write
        (λ d. d)
        0
        (device_with idle_queue)
        []
        7
        1024
        1030
        (0x61 ∷ 0x62 ∷ [])
        2
        true
      ≡ some (
        ok 2,
        sent,
        (0x1410, 0x61 ∷ 0x62 ∷ [])
            ∷ (0x1400, 0 ∷ 4 ∷ 0 ∷ 0 ∷ 6 ∷ 4 ∷ 0 ∷ 0 ∷ 0 ∷ 0 ∷ 0 ∷ 0 ∷ 2 ∷ 0 ∷ 0 ∷ 0 ∷ [])
            ∷ [],
      ))
    × IsDriver sent.svq (1 ∷ 2 ∷ 3 ∷ []) ((0 ∷ []) ∷ [])
    × HasBuffer flat sent.svq 0 0x1400 512 0
    × (sent.svq.vring.avail_ring 0 ≡ 0)
    × (sent.svq.vring.avail_idx ≡ 1)
    × (sent.svq.queued_cnt ≡ 0)
    × (sent.shpool.avail + 512 ≡ 1024)
send_fresh-IsDriver_example =
    send_fresh-IsDriver true flat recorded_write (λ m a l. refl) (λ d. d) 0 (device_with idle_queue)
      refl 2 (omega arith) [] 7 1024 1030 (0x61 ∷ 0x62 ∷ []) true 0 (1 ∷ 2 ∷ 3 ∷ []) []
      (omega arith) refl idle-IsDriver refl (omega arith) (omega arith) (omega arith)

-- An endpoint's callback that counts the messages, at a master with one message.
abbrev counting_cb : Callback (ℕ → Bool) ℕ
counting_cb s ept addr len src = (pos 0, record s { app = s.app + 1 })

abbrev one_message : RxState (ℕ → Bool) ℕ
one_message = record {
  rvdev = record (device_with idle_queue) { rvq = busy_queue 1 };
  rdev = device;
  app = 0;
}

-- The endpoint has an unbind callback and talks to address 3.
abbrev unbinding : RpmsgDevice (ℕ → Bool)
unbinding = record device { eps = λ i. record (device.eps i) { dest_addr = 3; ns_unbind_cb = 8 } }

-- Two new queues of four descriptors, and a pool of eight buffers.
abbrev new_vring : VringInfo
new_vring = record { vq = idle_queue; num_descs = 4; mem = ring 0 0 no_flags }

new_vring-IsNew : IsNew new_vring 2
new_vring-IsNew = record {
  log_size_le = omega arith;
  num_descs = refl;
  not_inuse = refl;
  first = refl;
  extra = refl;
  no_cookies = λ j. refl;
}

abbrev new_pool : ShmPool
new_pool = record { base = 0x1000; avail = 4096; size = 4096 }

abbrev starting : InitState (ℕ → Bool) ℕ
starting = record {
  dev = 0;
  rdev = device;
  vrings = λ i. new_vring;
  shpool = some new_pool;
  rvq = 0;
  svq = 0;
}

abbrev vdev_ops : VdevOps ℕ
vdev_ops = record {
  get_status = λ d. (d, d);
  set_status = λ d status. status;
  get_features = λ d. 1;
}

init_vdev-IsDriver_example :
    (s' : InitState (ℕ → Bool) ℕ) × (busy : List (List ℕ)) × (pool' : ShmPool) × (rpmsg_init_vdev
        vdev_ops true flat 0 master 2 9 starting
      ≡ some (vq_status success, s'))
    × IsDriver (s'.vrings s'.rvq).vq [] busy
    × (length busy ≡ 4)
    × IsDriver (s'.vrings s'.svq).vq (0 ∷ 1 ∷ 2 ∷ 3 ∷ []) []
    × (s'.shpool ≡ some pool')
    × (pool'.avail + 2048 ≡ 4096)
    × ((j : ℕ) → j < 4 → HasBuffer flat (s'.vrings s'.rvq).vq j (0x1000 + 0 + 512 * j) 512 2)
    × (s'.dev ≡ 4)
init_vdev-IsDriver_example =
    init_vdev-IsDriver vdev_ops true flat 0 9 2 2 starting new_pool new_vring-IsNew new_vring-IsNew
      refl (omega arith) (omega arith) (omega arith)

deinit_vdev-empty_example :
    (rdev' : RpmsgDevice (ℕ → Bool)) × (t' : ℕ) × (rpmsg_deinit_vdev bits counting 1 device 0
      ≡ some (rdev', t'))
    × (rdev'.endpoints ≡ [])
    × ((i : ℕ) → i < addr_bmp_size → rdev'.bitmap i ≡ false)
deinit_vdev-empty_example =
    deinit_vdev-empty bits bits-IsBitmap counting (1 ∷ []) 1 device 0 device-IsRegistry refl refl
      (omega arith)

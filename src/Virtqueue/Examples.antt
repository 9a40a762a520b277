-- ===== src/Virtqueue/Examples.antt =====
-- Rings of four descriptors, with nothing in flight, with one chain in flight, and full: the test data
-- of Virtqueue.Tests.
use openamp.Base.{ℕ, ◌+◌, refl, true, false, List, [], ◌∷◌, arith, if◌then◌else◌, ◌==◌}
use openamp.Vring.{Vring, VringDesc}
use openamp.Virtqueue.{Virtqueue, VirtqueueBuf, ShmIo, DescExtra, Role, master, slave}
use openamp.Virtqueue.Driver.Owned.{IsDriver}
use openamp.Virtqueue.Protocol.{System}
use openamp.Virtqueue.Protocol.Invariant.{IsShared}
use openamp.Virtqueue.Protocol.Safety.{start-IsShared}

-- Memory at the same addresses on both sides.
abbrev pub flat : ShmIo
flat = record { phys_to_virt = λ a. a; virt_to_phys = λ a. a }

abbrev pub two_bufs : List VirtqueueBuf
two_bufs = record { buf = 0x1000; len = 512 } ∷ record { buf = 0x2000; len = 512 } ∷ []

-- Descriptors chained 0, 1, 2, 3; `flags_of` are their flags.
abbrev table : (ℕ → ℕ) → ℕ → VringDesc
table flags_of i = record {
  addr = 0x1000;
  len = 512;
  flags = flags_of i;
  next = if i == 3 then 32768 else i + 1;
}

abbrev pub ring : (avail_idx used_idx : ℕ) → (ℕ → ℕ) → Vring
ring avail_idx used_idx flags_of = record {
  num = 4;
  desc = table flags_of;
  avail_flags = 0;
  avail_idx = avail_idx;
  avail_ring = λ _. 0;
  used_event = 0;
  used_flags = 0;
  used_idx = used_idx;
  used_ring = λ _. record { id = 0; len = 100 };
  avail_event = 0;
}

abbrev pub queue : Role → Vring → (free_cnt head : ℕ) → (ℕ → DescExtra) → Virtqueue
queue role r free_cnt head descx = record {
  role = role;
  features = 0;
  queue_index = 0;
  nentries = 4;
  callback = true;
  notify = true;
  vring = r;
  free_cnt = free_cnt;
  queued_cnt = 0;
  desc_head_idx = head;
  used_cons_idx = 0;
  available_idx = 0;
  inuse = false;
  descx_num = 4;
  descx = descx;
}

abbrev pub no_flags : ℕ → ℕ
no_flags i = 0

abbrev pub no_extra : ℕ → DescExtra
no_extra i = record { cookie = 0; ndescs = 0 }

-- Nothing in flight.
abbrev pub idle_queue : Virtqueue
idle_queue = queue master (ring 0 0 no_flags) 4 0 no_extra

pub idle-IsDriver : IsDriver idle_queue (0 ∷ 1 ∷ 2 ∷ 3 ∷ []) []
idle-IsDriver = record {
  log_size = 2;
  log_size_le = omega arith;
  nentries_eq = refl;
  num_eq = refl;
  descx_num_eq = refl;
  not_inuse = refl;
  chain = (refl, (refl, (refl, (refl, refl))));
  free_cnt_eq = refl;
  total = refl;
  owns = λ i. ground arith;
  free_cookies = (refl, (refl, (refl, (refl, tt))));
  in_flight = tt;
}

-- The chain 0, 1 in flight; `used_idx` is 1 once the other side has returned it.
abbrev pub busy_queue : (used_idx : ℕ) → Virtqueue
busy_queue used_idx =
    queue master (ring 1 used_idx (λ i. if i == 0 then 1 else 0)) 2 2 (λ i.
      if i == 0 then record { cookie = 77; ndescs = 2 } else record { cookie = 0; ndescs = 0 })

pub busy-IsDriver : (used_idx : ℕ) → IsDriver (busy_queue used_idx) (2 ∷ 3 ∷ []) ((0 ∷ 1 ∷ []) ∷ [])
busy-IsDriver used_idx = record {
  log_size = 2;
  log_size_le = omega arith;
  nentries_eq = refl;
  num_eq = refl;
  descx_num_eq = refl;
  not_inuse = refl;
  chain = (refl, (refl, refl));
  free_cnt_eq = refl;
  total = refl;
  owns = λ i. ground arith;
  free_cookies = (refl, (refl, tt));
  in_flight = ((refl, (omega arith), (refl, refl, refl, (refl, refl)), (refl, tt)), tt);
}

-- All four descriptors in flight, in one chain.
abbrev pub full_queue : Virtqueue
full_queue =
    queue master (ring 1 0 (λ i. if i == 3 then 0 else 1)) 0 32768 (λ i.
      if i == 0 then record { cookie = 77; ndescs = 4 } else record { cookie = 0; ndescs = 0 })

pub full-IsDriver : IsDriver full_queue [] ((0 ∷ 1 ∷ 2 ∷ 3 ∷ []) ∷ [])
full-IsDriver = record {
  log_size = 2;
  log_size_le = omega arith;
  nentries_eq = refl;
  num_eq = refl;
  descx_num_eq = refl;
  not_inuse = refl;
  chain = refl;
  free_cnt_eq = refl;
  total = refl;
  owns = λ i. ground arith;
  free_cookies = tt;
  in_flight = (
    (
      refl,
      omega arith,
      (refl, refl, refl, (refl, refl, refl, (refl, refl, refl, (refl, refl)))),
      (refl, (refl, (refl, tt))),
    ),
    tt,
  );
}

-- The other side of a ring, which has taken `available_idx` buffers.
abbrev pub device_of : Vring → (available_idx : ℕ) → Virtqueue
device_of r available_idx = record (queue slave r 0 0 no_extra) { available_idx = available_idx }

abbrev pub idle_system : System
idle_system = record { driver = idle_queue; device = device_of idle_queue.vring 0; held = [] }

pub idle-IsShared : IsShared idle_system
idle-IsShared =
    start-IsShared idle_queue (device_of idle_queue.vring 0) (0 ∷ 1 ∷ 2 ∷ 3 ∷ []) idle-IsDriver refl
      refl refl (omega arith) refl (omega arith) refl

-- The chain 0, 1 waits in the available ring; the device holds it; it waits in the used ring.
abbrev pub available_system : System
available_system = record {
  driver = busy_queue 0;
  device = device_of (busy_queue 0).vring 0;
  held = [];
}

abbrev pub held_system : System
held_system = record {
  driver = busy_queue 0;
  device = device_of (busy_queue 0).vring 1;
  held = 0 ∷ [];
}

abbrev pub used_system : System
used_system = record { driver = busy_queue 1; device = device_of (busy_queue 1).vring 1; held = [] }

abbrev pub available-IsShared : IsShared available_system
available-IsShared = record {
  free = 2 ∷ 3 ∷ [];
  busy = (0 ∷ 1 ∷ []) ∷ [];
  navail = 1;
  nused = 0;
  driver = busy-IsDriver 0;
  coherent = refl;
  same_size = refl;
  not_inuse = refl;
  avail_word = omega arith;
  avail_eq = refl;
  used_word = omega arith;
  used_eq = refl;
  placed = λ i. ground arith;
  placed_length = refl;
}

abbrev pub held-IsShared : IsShared held_system
held-IsShared = record {
  free = 2 ∷ 3 ∷ [];
  busy = (0 ∷ 1 ∷ []) ∷ [];
  navail = 0;
  nused = 0;
  driver = busy-IsDriver 0;
  coherent = refl;
  same_size = refl;
  not_inuse = refl;
  avail_word = omega arith;
  avail_eq = refl;
  used_word = omega arith;
  used_eq = refl;
  placed = λ i. ground arith;
  placed_length = refl;
}

abbrev pub used-IsShared : IsShared used_system
used-IsShared = record {
  free = 2 ∷ 3 ∷ [];
  busy = (0 ∷ 1 ∷ []) ∷ [];
  navail = 0;
  nused = 1;
  driver = busy-IsDriver 1;
  coherent = refl;
  same_size = refl;
  not_inuse = refl;
  avail_word = omega arith;
  avail_eq = refl;
  used_word = omega arith;
  used_eq = refl;
  placed = λ i. ground arith;
  placed_length = refl;
}

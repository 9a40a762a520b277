-- ===== src/Virtqueue/Protocol/DeviceMoves.antt =====
-- lib/virtio/virtqueue.c: `virtqueue_get_available_buffer` and `virtqueue_add_consumed_buffer` keep
-- the invariant of two cores at one ring, and succeed where it says that they can.
use mathlib.Core.List.{map-append}
use openamp.Base.{
  ℕ, suc, ◌+◌, ◌%◌, ◌≤◌, ◌<◌, ◌≡◌, ◌∙◌, refl, ap, sym, subst, Bool, false, some, List, [], ◌∷◌,
  ◌++◌, map, arith, ◌==◌, if◌then◌else◌, length, length-append, count, count-append, All,
}
use openamp.Base.Array.{update}
use openamp.Vring.{Vring, UsedElem, add16}
use openamp.Virtqueue.{Virtqueue, ShmIo, success, chain_end, ring_index}
use openamp.Virtqueue.Device.{
  Available, virtqueue_get_available_buffer, virtqueue_add_consumed_buffer,
}
use openamp.Virtqueue.Device.Calls.{get_available-eq, add_consumed-eq}
use openamp.Virtqueue.Driver.Chain.{Chain}
use openamp.Virtqueue.Driver.Owned.{InFlight, IsDriver, size_bounds, avail_slot}
use openamp.Virtqueue.Fifo.{window, window-push, index_wrap}
use openamp.Virtqueue.Protocol.{System, device_moves}
use openamp.Virtqueue.Protocol.Invariant.{available, used, IsShared, head-lt, room}

-- The driver's invariant is about its own fields and the descriptor table.
IsDriver-vring :
    (vq : Virtqueue) (r : Vring) {free : List ℕ} {busy : List (List ℕ)}
    → r.desc ≡ vq.vring.desc
    → r.num ≡ vq.vring.num
    → IsDriver vq free busy
    → IsDriver (record vq { vring = r }) free busy
IsDriver-vring vq r {free} {busy} ed en v = record {
  log_size = v.log_size;
  log_size_le = v.log_size_le;
  nentries_eq = v.nentries_eq;
  num_eq = en ∙ v.num_eq;
  descx_num_eq = v.descx_num_eq;
  not_inuse = v.not_inuse;
  chain = subst (λ d. Chain d chain_end vq.desc_head_idx free) (sym ed) v.chain;
  free_cnt_eq = v.free_cnt_eq;
  total = v.total;
  owns = v.owns;
  free_cookies = v.free_cookies;
  in_flight = subst (λ d. All (InFlight d vq.descx) busy) (sym ed) v.in_flight;
}

-- The entries that wait in the used ring, the oldest first.
abbrev pub used_entries : System → (nused : ℕ) → List UsedElem
used_entries s nused =
    window s.driver.vring.used_ring s.driver.nentries s.driver.used_cons_idx nused

-- What the device reads when it takes the oldest entry.
abbrev pub oldest : System → ℕ
oldest s = s.driver.vring.avail_ring (s.device.available_idx % s.driver.nentries)

module _ (dbg : Bool) (io : ShmIo) {s : System} (v : IsShared s) where
  abbrev taken : Available
  taken = record {
    buffer = io.phys_to_virt (s.driver.vring.desc (oldest s)).addr;
    avail_idx = oldest s;
    len = (s.driver.vring.desc (oldest s)).len;
  }

  oldest-lt : (m : ℕ) → v.navail ≡ suc m → oldest s < s.driver.nentries
  oldest-lt m more =
      head-lt v (oldest s) (ground (arith, v.placed (oldest s), ap (available s) more))

  -- While an entry waits in the available ring, `virtqueue_get_available_buffer` returns the buffer
  -- of the oldest one, which the device then holds.
  pub take-IsShared :
      (m : ℕ)
      → v.navail ≡ suc m
      → (vq : Virtqueue) × (virtqueue_get_available_buffer dbg io s.device ≡ some (some taken, vq))
        × IsShared (device_moves s vq (oldest s ∷ s.held))
  take-IsShared m more = (
    record s.device { available_idx = add16 s.device.available_idx 1; inuse = false },
    subst
        (λ r.
          virtqueue_get_available_buffer dbg io (record s.device { vring = r })
          ≡ some (
            some taken,
            record s.device {
              vring = r;
              available_idx = add16 s.device.available_idx 1;
              inuse = false;
            },
          ))
        (sym v.coherent)
        (get_available-eq dbg (record s.device { vring = s.driver.vring }) v.not_inuse io
          (s.device.available_idx % n) (oldest s)
          (omega (arith, more, sizes, v.avail_eq, v.avail_word, v.placed_length, room v))
          (rw v.same_size slot.0) (omega (arith, slot.1, v.driver.num_eq)) refl
          (omega (arith, oldest-lt m more, v.driver.num_eq))),
    subst
        (λ r. IsShared (record {
          driver = record s.driver { vring = r };
          device = record s.device {
            vring = r;
            available_idx = add16 s.device.available_idx 1;
            inuse = false;
          };
          held = oldest s ∷ s.held;
        }))
        (sym v.coherent) after,
  )
    where
      n : ℕ
      n = s.driver.nentries

      sizes : (1 ≤ n) × (n ≤ chain_end)
      sizes = size_bounds v.driver

      slot :
          (ring_index s.device.available_idx n ≡ s.device.available_idx % n)
          × (s.device.available_idx % n < n)
      slot = avail_slot v.driver s.device.available_idx

      after : IsShared (record {
        driver = s.driver;
        device = record s.device {
          vring = s.driver.vring;
          available_idx = add16 s.device.available_idx 1;
          inuse = false;
        };
        held = oldest s ∷ s.held;
      })
      after = record {
        free = v.free;
        busy = v.busy;
        navail = m;
        nused = v.nused;
        driver = v.driver;
        coherent = refl;
        same_size = v.same_size;
        not_inuse = refl;
        avail_word = omega arith;
        avail_eq = omega (arith, v.avail_eq, more);
        used_word = v.used_word;
        used_eq = v.used_eq;
        placed = λ i. omega (arith, v.placed i, ap (λ k. count i (available s k)) more);
        placed_length = omega (arith, v.placed_length, more);
      }

  -- The memory after the device returned `h`.
  abbrev with_used : (h len : ℕ) → Vring → Vring
  with_used h len r = record r {
    used_ring = update r.used_ring (r.used_idx % s.driver.nentries) (record { id = h; len = len });
    used_idx = add16 r.used_idx 1;
  }

  -- The slot of the used ring behind the waiting entries takes one more.
  returned_last :
      (h len : ℕ)
      → v.nused < s.driver.nentries
      → window
          (with_used h len s.driver.vring).used_ring
          s.driver.nentries
          s.driver.used_cons_idx
          (suc v.nused)
        ≡ window s.driver.vring.used_ring s.driver.nentries s.driver.used_cons_idx v.nused
          ++ (record { id = h; len = len } ∷ [])
  returned_last h len lt =
      let k = v.driver.log_size in
      let n = s.driver.nentries in
      window-push s.driver.vring.used_ring n k s.driver.used_cons_idx s.driver.vring.used_idx
        v.nused (record { id = h; len = len }) v.driver.log_size_le v.driver.nentries_eq
        (ap (λ m. m % n) v.used_eq
          ∙ index_wrap (s.driver.used_cons_idx + v.nused) k n v.driver.log_size_le
              v.driver.nentries_eq)
        lt

  -- The return of a chain that the device holds, by its head, succeeds and keeps the
  -- invariant. The entries that wait in the used ring are then those of before and, behind them, one
  -- with this head and with the length that the device gives.
  pub return-IsShared :
      (pre post : List ℕ) (h len : ℕ)
      → s.held ≡ pre ++ (h ∷ post)
      → (vq : Virtqueue) × (virtqueue_add_consumed_buffer dbg s.device h len ≡ some (success, vq))
        × (v' : IsShared (device_moves s vq (pre ++ post))) × (used_entries
              (device_moves s vq (pre ++ post))
              v'.nused
            ≡ used_entries s v.nused ++ (record { id = h; len = len } ∷ []))
  return-IsShared pre post h len e =
      let (v', order) =
        subst
          (λ r.
            (v' : IsShared (record {
              driver = record s.driver { vring = with_used h len r };
              device = out r;
              held = pre ++ post;
            }))
            × (window (with_used h len r).used_ring n s.driver.used_cons_idx v'.nused
                ≡ used_entries s v.nused ++ (record { id = h; len = len } ∷ [])))
          (sym v.coherent) (after, returned_last h len behind) in
      (
        out s.device.vring,
        subst
            (λ r.
              virtqueue_add_consumed_buffer dbg (record s.device { vring = r }) h len
              ≡ some (success, out r))
            (sym v.coherent)
            (add_consumed-eq dbg (record s.device { vring = s.driver.vring }) v.not_inuse h len
              (s.driver.vring.used_idx % n) (omega (arith, inside, v.same_size))
              (rw v.same_size slot.0) (omega (arith, slot.1, v.driver.num_eq))),
        v',
        order,
      )
    where
      n : ℕ
      n = s.driver.nentries

      out : Vring → Virtqueue
      out r = record s.device {
        vring = with_used h len r;
        queued_cnt = add16 s.device.queued_cnt 1;
        inuse = false;
      }

      slot :
          (ring_index s.driver.vring.used_idx n ≡ s.driver.vring.used_idx % n)
          × (s.driver.vring.used_idx % n < n)
      slot = avail_slot v.driver s.driver.vring.used_idx

      held-count : (i : ℕ) → count i s.held ≡ (if i == h then 1 else 0) + count i (pre ++ post)
      held-count i =
          omega (arith, ap (count i) e, count-append i pre (h ∷ post), count-append i pre post)

      held-length : length s.held ≡ suc (length (pre ++ post))
      held-length =
          omega (arith, ap length e, length-append {0} pre (h ∷ post), length-append {0} pre post)

      inside : h < n
      inside = head-lt v h (ground (arith, v.placed h, held-count h))

      behind : v.nused < n
      behind = omega (arith, held-length, v.placed_length, room v)

      plus_zero :
          (i : ℕ)
          → count i (used s v.nused) + ((if i == h then 1 else 0) + 0)
            ≡ count i (used s v.nused) + (if i == h then 1 else 0)
      plus_zero i = omega arith

      new_used :
          (i : ℕ)
          → count i (
              map
                (λ (u : UsedElem). u.id)
                (window
                  (with_used h len s.driver.vring).used_ring
                  n
                  s.driver.used_cons_idx
                  (suc v.nused)))
            ≡ count i (used s v.nused) + (if i == h then 1 else 0)
      new_used i =
          ap (λ w. count i (map (λ (u : UsedElem). u.id) w)) (returned_last h len behind)
          ∙ ap (count i) (
              map-append (λ (u : UsedElem). u.id)
                (window s.driver.vring.used_ring n s.driver.used_cons_idx v.nused)
                (record { id = h; len = len } ∷ []))
          ∙ count-append i (used s v.nused) (h ∷ [])
          ∙ plus_zero i

      after : IsShared (record {
        driver = record s.driver { vring = with_used h len s.driver.vring };
        device = out s.driver.vring;
        held = pre ++ post;
      })
      after = record {
        free = v.free;
        busy = v.busy;
        navail = v.navail;
        nused = suc v.nused;
        driver = IsDriver-vring s.driver (with_used h len s.driver.vring) refl refl v.driver;
        coherent = refl;
        same_size = v.same_size;
        not_inuse = refl;
        avail_word = v.avail_word;
        avail_eq = v.avail_eq;
        used_word = v.used_word;
        used_eq = omega (arith, v.used_eq);
        placed = λ i. omega (arith, v.placed i, held-count i, new_used i);
        placed_length = omega (arith, v.placed_length, held-length);
      }

-- ===== src/Virtqueue/Notify/Kick.antt =====
-- lib/virtio/virtqueue.c: `virtqueue_kick` leaves what the driver owns.
use openamp.Base.{
  ℕ, ◌+◌, ◌∙◌, sym, subst, All, bit_or, ◌≡◌, refl, Bool, false, ◌&&◌, some, List, arith,
}
use openamp.Virtqueue.{Virtqueue}
use openamp.Virtqueue.Driver.Owned.{IsDriver}
use openamp.Virtqueue.Notify.{
  virtqueue_kick, vq_ring_must_notify, virtqueue_disable_cb, set_request,
}
use openamp.Vring.{Vring, sub16, used_f_no_notify}
use openamp.Virtqueue.{chain_end}
use openamp.Virtqueue.Driver.Chain.{Chain}
use openamp.Virtqueue.Driver.Owned.{InFlight}
use openamp.Virtqueue.Protocol.{System, driver_moves}
use openamp.Virtqueue.Protocol.Invariant.{IsShared}

-- The fields that a kick resets are not the driver's.
kicked :
    (vq : Virtqueue) (free : List ℕ) (busy : List (List ℕ))
    → IsDriver vq free busy
    → IsDriver (record vq { queued_cnt = 0; inuse = false }) free busy
kicked vq free busy v = record {
  log_size = v.log_size;
  log_size_le = v.log_size_le;
  nentries_eq = v.nentries_eq;
  num_eq = v.num_eq;
  descx_num_eq = v.descx_num_eq;
  not_inuse = refl;
  chain = v.chain;
  free_cnt_eq = v.free_cnt_eq;
  total = v.total;
  owns = v.owns;
  free_cookies = v.free_cookies;
  in_flight = v.in_flight;
}

-- A kick of an idle queue resets its counter and leaves what the driver owns.
pub kick-IsDriver :
    (dbg : Bool) (vq : Virtqueue) (free : List ℕ) (busy : List (List ℕ))
    → IsDriver vq free busy
    → (n : Bool) × (vq' : Virtqueue) × (virtqueue_kick dbg vq ≡ some (n, vq'))
      × IsDriver vq' free busy
      × (vq' ≡ record vq { queued_cnt = 0; inuse = false })
unfolding virtqueue_kick
kick-IsDriver dbg vq free busy v = (
  vq_ring_must_notify vq && vq.notify,
  record vq { queued_cnt = 0; inuse = false },
  ground (arith, v.not_inuse),
  kicked vq free busy v,
  refl,
)

-- A kick by the driver leaves both sides' entries where they are.
pub kick-IsShared :
    (dbg : Bool) {s : System} (v : IsShared s)
    → (n : Bool) × (vq' : Virtqueue) × (virtqueue_kick dbg s.driver ≡ some (n, vq'))
      × (v' : IsShared (driver_moves s vq')) × (v'.nused ≡ v.nused)
      × (v'.navail ≡ v.navail)
unfolding virtqueue_kick
kick-IsShared dbg {s} v = (
  vq_ring_must_notify s.driver && s.driver.notify,
  record s.driver { queued_cnt = 0; inuse = false },
  ground (arith, v.driver.not_inuse),
  record {
    free = v.free;
    busy = v.busy;
    navail = v.navail;
    nused = v.nused;
    driver = kicked s.driver v.free v.busy v.driver;
    coherent = refl;
    same_size = v.same_size;
    not_inuse = v.not_inuse;
    avail_word = v.avail_word;
    avail_eq = v.avail_eq;
    used_word = v.used_word;
    used_eq = v.used_eq;
    placed = v.placed;
    placed_length = v.placed_length;
  },
  refl,
  refl,
)

-- A ring with the same descriptors, of the same number, is as much the driver's.
asked :
    (vq : Virtqueue) (free : List ℕ) (busy : List (List ℕ)) (r : Vring)
    → r.num ≡ vq.vring.num
    → r.desc ≡ vq.vring.desc
    → IsDriver vq free busy
    → IsDriver (record vq { vring = r; inuse = false }) free busy
asked vq free busy r en ed v = record {
  log_size = v.log_size;
  log_size_le = v.log_size_le;
  nentries_eq = v.nentries_eq;
  num_eq = en ∙ v.num_eq;
  descx_num_eq = v.descx_num_eq;
  not_inuse = refl;
  chain = subst (λ d. Chain d chain_end vq.desc_head_idx free) (sym ed) v.chain;
  free_cnt_eq = v.free_cnt_eq;
  total = v.total;
  owns = v.owns;
  free_cookies = v.free_cookies;
  in_flight = subst (λ d. All (InFlight d vq.descx) busy) (sym ed) v.in_flight;
}

-- Switching the callback of an idle queue off leaves what the driver owns.
pub disable-IsDriver :
    (dbg : Bool) (vq : Virtqueue) (free : List ℕ) (busy : List (List ℕ))
    → IsDriver vq free busy
    → (vq' : Virtqueue) × (virtqueue_disable_cb dbg vq ≡ some vq') × IsDriver vq' free busy
unfolding virtqueue_disable_cb
disable-IsDriver dbg vq free busy v =
    let r =
      set_request vq (λ idx. sub16 idx (vq.nentries + 1))
        (λ flags. bit_or flags used_f_no_notify) in
    (
      record vq { vring = r; inuse = false },
      ground (arith, v.not_inuse),
      asked vq free busy r (ground arith) (ground arith) v,
    )

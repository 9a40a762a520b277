-- ===== src/Virtqueue/Notify/Suppress.antt =====
-- lib/virtio/virtqueue.c: what `virtqueue_disable_cb` and `virtqueue_enable_cb` on one side mean for
-- `vq_ring_must_notify` on the other.
use openamp.Base.{
  ℕ, ◌+◌, ◌-◌, ◌^◌, ◌≤◌, ◌<◌, ◌≡◌, ◌↔◌, ◌⊎◌, inl, inr, Bool, true, false, some, arith, bit_and,
  bit_or, ltb,
}
use openamp.Base.Bits.{bit_and-one, bit_and-odd, bit_or-odd}
use openamp.Vring.{add16, sub16, used_f_no_notify, vring_need_event}
use openamp.Virtqueue.{Virtqueue, master, slave}
use openamp.Virtqueue.Notify.{
  has_event_idx, clear_bit0, set_request, vq_ring_must_notify, virtqueue_disable_cb,
  virtqueue_enable_cb,
}

-- The peer of a queue: the other role, and the same answer about VIRTIO_RING_F_EVENT_IDX.
pub record IsPeer (vq peer : Virtqueue) : Type 0 where
  pub roles :
      ((vq.role ≡ master) × (peer.role ≡ slave)) ⊎ ((vq.role ≡ slave) × (peer.role ≡ master))
  pub event_idx : has_event_idx vq ≡ has_event_idx peer

set_low_bit : (f : ℕ) → bit_and (bit_or f 1) 1 ≡ 1
set_low_bit f = omega (arith, bit_and-one (bit_or f 1), bit_or-odd f 1)

clear_low_bit : (f : ℕ) → bit_and (clear_bit0 f) 1 ≡ 0
clear_low_bit f = omega (arith, bit_and-one (clear_bit0 f), bit_and-odd f (2 ^ 16 - 2))

-- The number of entries that the other side published and this one has not taken.
abbrev pub waiting : Virtqueue → ℕ
waiting vq = elim vq.role [
  | master ↦ sub16 vq.vring.used_idx vq.used_cons_idx
  | slave ↦ sub16 vq.vring.avail_idx vq.available_idx
]

-- The queue after `virtqueue_disable_cb` and after `virtqueue_enable_cb`.
abbrev disabled : Virtqueue → Virtqueue
disabled vq = record vq {
  vring =
      set_request vq (λ idx. sub16 idx (vq.nentries + 1)) (λ flags. bit_or flags used_f_no_notify);
  inuse = false;
}

abbrev enabled : Virtqueue → Virtqueue
enabled vq = record vq { vring = set_request vq (λ idx. add16 idx 0) (λ flags. clear_bit0 flags) }

disable-eq :
    (dbg : Bool) (vq : Virtqueue)
    → vq.inuse ≡ false
    → virtqueue_disable_cb dbg vq ≡ some (disabled vq)
unfolding virtqueue_disable_cb
disable-eq dbg vq hi = ground arith

enable-eq :
    (dbg : Bool) (vq : Virtqueue)
    → waiting vq ≤ vq.nentries
    → virtqueue_enable_cb dbg vq ≡ some (ltb 0 (waiting vq), enabled vq)
unfolding virtqueue_enable_cb
enable-eq dbg vq h = ground arith

-- Where VIRTIO_RING_F_EVENT_IDX was not negotiated: after `virtqueue_disable_cb` on one side the
-- other side need not notify, whatever it has queued; after `virtqueue_enable_cb` it must, and the
-- call tells whether entries wait already.
pub flags_control :
    (dbg : Bool) (vq peer : Virtqueue)
    → IsPeer vq peer
    → has_event_idx vq ≡ false
    → vq.inuse ≡ false
    → waiting vq ≤ vq.nentries
    → ((off : Virtqueue) × (virtqueue_disable_cb dbg vq ≡ some off)
        × (vq_ring_must_notify (record peer { vring = off.vring }) ≡ false))
      × ((on : Virtqueue) × (virtqueue_enable_cb dbg vq ≡ some (ltb 0 (waiting vq), on))
          × (vq_ring_must_notify (record peer { vring = on.vring }) ≡ true))
unfolding vq_ring_must_notify
flags_control dbg vq peer p he hi hw = (
  (
    disabled vq,
    disable-eq dbg vq hi,
    ground (arith, set_low_bit vq.vring.avail_flags, set_low_bit vq.vring.used_flags),
  ),
  (
    enabled vq,
    enable-eq dbg vq hw,
    ground (arith, clear_low_bit vq.vring.avail_flags, clear_low_bit vq.vring.used_flags),
  ),
)

-- The consumer at `x`, the producer at `new` with `queued` entries since its last kick.
off_arith :
    (x new n queued : ℕ)
    → x < 2 ^ 16
    → new < 2 ^ 16
    → n < 2 ^ 15
    → sub16 new x ≤ n
    → queued ≤ n
    → vring_need_event (sub16 x (n + 1)) new (sub16 new queued) ≡ false
unfolding vring_need_event
off_arith x new n queued hx hn h w q = ground arith

on_arith :
    (x new queued : ℕ)
    → x < 2 ^ 16
    → new < 2 ^ 16
    → queued < 2 ^ 16
    → (vring_need_event (add16 x 0) new (sub16 new queued) ≡ true)
      ↔ ((0 < sub16 new x) × (sub16 new x ≤ queued))
unfolding vring_need_event
on_arith x new queued hx hn q = ground arith

-- Where VIRTIO_RING_F_EVENT_IDX was negotiated, on a ring of fewer than 2 ^ 15 entries, with
-- indices in their 16 bits, at most a ring of
-- entries waiting, and at most a ring of entries queued by the other side since its last kick: after
-- `virtqueue_disable_cb` on one side the other side need not notify; after `virtqueue_enable_cb` it
-- must notify exactly if an entry waits and the oldest waiting one was queued since the last kick.
pub event_control :
    (dbg : Bool) (vq peer : Virtqueue)
    → IsPeer vq peer
    → has_event_idx vq ≡ true
    → vq.inuse ≡ false
    → vq.nentries < 2 ^ 15
    → waiting vq ≤ vq.nentries
    → peer.queued_cnt ≤ vq.nentries
    → vq.used_cons_idx < 2 ^ 16
    → vq.available_idx < 2 ^ 16
    → vq.vring.used_idx < 2 ^ 16
    → vq.vring.avail_idx < 2 ^ 16
    → ((off : Virtqueue) × (virtqueue_disable_cb dbg vq ≡ some off)
        × (vq_ring_must_notify (record peer { vring = off.vring }) ≡ false))
      × ((on : Virtqueue) × (virtqueue_enable_cb dbg vq ≡ some (ltb 0 (waiting vq), on))
          × ((vq_ring_must_notify (record peer { vring = on.vring }) ≡ true)
              ↔ ((0 < waiting vq) × (waiting vq ≤ peer.queued_cnt))))
unfolding vq_ring_must_notify
event_control dbg vq peer p he hi hn hw hq hu ha hui hai = elim p.roles [
  | inl (e, e') ↦ (
    (
      disabled vq,
      disable-eq dbg vq hi,
      ground (arith, off_arith vq.used_cons_idx vq.vring.used_idx vq.nentries peer.queued_cnt),
    ),
    (
      enabled vq,
      enable-eq dbg vq hw,
      ground (arith, on_arith vq.used_cons_idx vq.vring.used_idx peer.queued_cnt),
    ),
  )
  | inr (e, e') ↦ (
    (
      disabled vq,
      disable-eq dbg vq hi,
      ground (arith, off_arith vq.available_idx vq.vring.avail_idx vq.nentries peer.queued_cnt),
    ),
    (
      enabled vq,
      enable-eq dbg vq hw,
      ground (arith, on_arith vq.available_idx vq.vring.avail_idx peer.queued_cnt),
    ),
  )
]

-- ===== src/Virtqueue/Notify.antt =====
-- lib/virtio/virtqueue.c, notification: `virtqueue_disable_cb`, `virtqueue_enable_cb`,
-- `virtqueue_kick`, `virtqueue_notification` and their helpers.
pub mod Suppress
pub mod Kick
use openamp.Base.{
  ℕ, ◌+◌, ◌-◌, ◌^◌, Bool, not, ◌&&◌, Option, some, bit_and, bit_or, ltb, leb, ◌==◌, if◌then◌else◌,
  ◌>>=◌, ◌>>◌,
}
use openamp.Vring.{Vring, add16, sub16, vring_need_event, used_f_no_notify, avail_f_no_interrupt}
use openamp.Virtqueue.{Virtqueue, master, slave, ring_f_event_idx, vqassert, busy, idle}

-- `vq->vq_dev->features & VIRTIO_RING_F_EVENT_IDX`
abbrev pub has_event_idx : Virtqueue → Bool
has_event_idx vq = not (bit_and vq.features ring_f_event_idx == 0)

-- `flags & ~1` on a `uint16_t`
abbrev pub clear_bit0 : ℕ → ℕ
clear_bit0 flags = bit_and flags (2 ^ 16 - 2)

-- The new value of the event index or flag through which a side asks for notifications: the master
-- writes into the available ring, the slave into the used ring.
abbrev pub set_request : Virtqueue → (event : ℕ → ℕ) → (flag : ℕ → ℕ) → Vring
set_request vq event flag =
    let vr = vq.vring in
    if has_event_idx vq
    then elim vq.role [
      | master ↦ record vr { used_event = event vq.used_cons_idx }
      | slave ↦ record vr { avail_event = event vq.available_idx }
    ]
    else elim vq.role [
      | master ↦ record vr { avail_flags = flag vr.avail_flags }
      | slave ↦ record vr { used_flags = flag vr.used_flags }
    ]

-- `vq_ring_must_notify`
pub vq_ring_must_notify : Virtqueue → Bool
vq_ring_must_notify vq =
    let vr = vq.vring in
    if has_event_idx vq
    then elim vq.role [
      | master ↦ vring_need_event vr.avail_event vr.avail_idx (sub16 vr.avail_idx vq.queued_cnt)
      | slave ↦ vring_need_event vr.used_event vr.used_idx (sub16 vr.used_idx vq.queued_cnt)
    ]
    else elim vq.role [
      | master ↦ bit_and vr.used_flags used_f_no_notify == 0
      | slave ↦ bit_and vr.avail_flags avail_f_no_interrupt == 0
    ]

-- `virtqueue_notification`: whether the callback is called.
pub virtqueue_notification : Virtqueue → Bool
virtqueue_notification vq = vq.callback

module _ (dbg : Bool) where
  -- `virtqueue_disable_cb`
  pub virtqueue_disable_cb : Virtqueue → Option Virtqueue
  virtqueue_disable_cb vq = do
    vq ← busy dbg vq
    some (
        idle dbg (record vq {
          vring =
              set_request vq (λ idx. sub16 idx (vq.nentries + 1))
                (λ flags. bit_or flags used_f_no_notify);
        }))

  -- `virtqueue_nused` and `virtqueue_navail`
  pub virtqueue_nused : Virtqueue → Option ℕ
  virtqueue_nused vq =
      let nused = sub16 vq.vring.used_idx vq.used_cons_idx in
      do vqassert dbg (leb nused vq.nentries); some nused

  pub virtqueue_navail : Virtqueue → Option ℕ
  virtqueue_navail vq =
      let navail = sub16 vq.vring.avail_idx vq.available_idx in
      do vqassert dbg (leb navail vq.nentries); some navail

  -- `vq_ring_enable_interrupt`: whether more than `ndesc` entries wait already.
  pub vq_ring_enable_interrupt : Virtqueue → (ndesc : ℕ) → Option (Bool × Virtqueue)
  unfolding virtqueue_nused virtqueue_navail
  vq_ring_enable_interrupt vq ndesc =
      let vq' : Virtqueue = record vq {
        vring = set_request vq (λ idx. add16 idx ndesc) (λ flags. clear_bit0 flags);
      } in
      do
        n ← elim vq'.role [ master ↦ virtqueue_nused vq' | slave ↦ virtqueue_navail vq' ]
        some (ltb ndesc n, vq')

  -- `virtqueue_enable_cb`
  pub virtqueue_enable_cb : Virtqueue → Option (Bool × Virtqueue)
  unfolding vq_ring_enable_interrupt
  virtqueue_enable_cb vq = vq_ring_enable_interrupt vq 0

  -- `virtqueue_kick`, with `vq_ring_notify`: whether the notify function is called.
  unfoldable pub virtqueue_kick : Virtqueue → Option (Bool × Virtqueue)
  unfolding vq_ring_must_notify
  virtqueue_kick vq = do
    vq ← busy dbg vq
    some (vq_ring_must_notify vq && vq.notify, idle dbg (record vq { queued_cnt = 0 }))

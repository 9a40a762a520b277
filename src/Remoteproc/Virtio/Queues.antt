-- ===== src/Remoteproc/Virtio/Queues.antt =====
-- lib/remoteproc/remoteproc_virtio.c: which virtqueues a notification id reaches.
use openamp.Base.{
  ℕ, zero, suc, ◌+◌, ◌≤◌, ◌<◌, ◌≡◌, ◌≢◌, refl, some, List, [], ◌∷◌, map, arith, ◌==◌, ==_iff,
  Bool-cases, inl, inr,
}
use openamp.Base.Int.{pos}
use openamp.Virtqueue.{Virtqueue}
use openamp.Virtqueue.Driver.Create.{upto}
use openamp.Remoteproc.{notify_id_any}
use openamp.Remoteproc.Virtio.{
  VirtioVringInfo, Vdev, notification, notify_from, rproc_virtio_notified,
  rproc_virtio_virtqueue_notify,
}

-- Virtqueues notified one after the other.
abbrev pub notify_all :
    {P : Type 0} → (P → (vq : ℕ) → Virtqueue) → (P → (vq : ℕ) → P) → P → List ℕ → P
notify_all queue callback p [] = p
notify_all queue callback p (vq ∷ vqs) =
    notify_all queue callback (notification queue callback p vq) vqs

module _ {P : Type 0} (queue : P → (vq : ℕ) → Virtqueue) (callback : P → (vq : ℕ) → P)
    (infos : ℕ → VirtioVringInfo) where
  notify_from-miss :
      (id left i : ℕ) (p : P)
      → id ≢ notify_id_any
      → ((j : ℕ) → i ≤ j → j < i + left → (infos j).notifyid ≢ id)
      → notify_from queue callback infos id left i p ≡ p
  unfolding notify_from
  notify_from-miss id zero i p any none_matches = refl
  notify_from-miss id (suc left) i p any none_matches = ground (
    arith,
    none_matches i (omega arith) (omega arith),
    notify_from-miss id left (i + 1) p any (λ j lo hi. none_matches j (omega arith) (omega arith)),
  )

  notify_from-one :
      (id left i index : ℕ) (p : P)
      → id ≢ notify_id_any
      → i ≤ index
      → index < i + left
      → (infos index).notifyid ≡ id
      → ((j : ℕ) → i ≤ j → j < i + left → (infos j).notifyid ≡ id → j ≡ index)
      → notify_from queue callback infos id left i p
        ≡ notification queue callback p (infos index).vq
  unfolding notify_from
  notify_from-one id zero i index p any lo hi here only = absurd (omega arith)
  notify_from-one id (suc left) i index p any lo hi here only = elim (Bool-cases (i == index)) [
    | inl e ↦ ground (
      arith,
      notify_from-miss id left (i + 1) (notification queue callback p (infos i).vq) any
          (λ j lo' hi' m.
            absurd (omega (arith, only j (omega arith) (omega arith) m, (==_iff i index).0 e))),
    )
    | inr ne ↦
        let misses : (infos i).notifyid ≢ id =
          λ m. absurd (ground (arith, only i (omega arith) (omega arith) m)) in
        ground (
          arith,
          notify_from-one id left (i + 1) index p any (ground arith) (omega arith) here
              (λ j lo' hi'. only j (omega arith) (omega arith)),
        )
  ]

  notify_from-any :
      (left i : ℕ) (p : P)
      → notify_from queue callback infos notify_id_any left i p
        ≡ notify_all queue callback p (map (λ j. (infos j).vq) (upto i left))
  unfolding notify_from
  notify_from-any zero i p = refl
  notify_from-any (suc left) i p =
      ground (arith, notify_from-any left (i + 1) (notification queue callback p (infos i).vq))

-- Two ends of a device whose vrings have the same notification ids, pairwise different, none of them the device's
-- own id or RSC_NOTIFY_ID_ANY: what `rproc_virtio_virtqueue_notify` sends for a virtqueue of one end makes
-- `rproc_virtio_notified` at the other end notify the virtqueue with the same index, once, and no other.
pub kick_arrives :
    {P Q : Type 0} (queue : Q → (vq : ℕ) → Virtqueue) (callback : Q → (vq : ℕ) → Q)
    (notify : P → (id : ℕ) → P) (own peer : Vdev) (vq_id : ℕ) (p : P) (q : Q)
    → vq_id < own.vrings_num
    → own.vrings_num ≡ peer.vrings_num
    → ((j : ℕ) → j < own.vrings_num → (own.vrings_info j).notifyid ≡ (peer.vrings_info j).notifyid)
    → ((j k : ℕ)
        → j < own.vrings_num
        → k < own.vrings_num
        → (own.vrings_info j).notifyid ≡ (own.vrings_info k).notifyid
        → j ≡ k)
    → (own.vrings_info vq_id).notifyid ≢ peer.notifyid
    → (own.vrings_info vq_id).notifyid ≢ notify_id_any
    → (id : ℕ) × (rproc_virtio_virtqueue_notify notify own p vq_id ≡ some (notify p id))
      × (rproc_virtio_notified queue callback (some peer) id q
          ≡ (pos 0, notification queue callback q (peer.vrings_info vq_id).vq))
unfolding rproc_virtio_virtqueue_notify rproc_virtio_notified
kick_arrives queue callback notify own peer vq_id p q lt same ids distinct not_dev not_any =
    let id = (own.vrings_info vq_id).notifyid in
    (
      id,
      ground arith,
      ground (
        arith,
        notify_from-one queue callback peer.vrings_info id peer.vrings_num 0 vq_id q not_any
            (omega arith) (omega arith) (omega (arith, ids vq_id lt))
            (λ j lo hi m. distinct j vq_id (omega arith) lt (omega (arith, ids j))),
      ),
    )

-- RSC_NOTIFY_ID_ANY, where it is not the id of the device, notifies every virtqueue of the device once, in the
-- order of their indices.
pub notified_any :
    {P : Type 0} (queue : P → (vq : ℕ) → Virtqueue) (callback : P → (vq : ℕ) → P) (vdev : Vdev)
    (p : P)
    → vdev.notifyid ≢ notify_id_any
    → rproc_virtio_notified queue callback (some vdev) notify_id_any p ≡ (
      pos 0,
      notify_all queue callback p (map (λ j. (vdev.vrings_info j).vq) (upto 0 vdev.vrings_num)),
    )
unfolding rproc_virtio_notified
notified_any queue callback vdev p ne =
    ground (arith, notify_from-any queue callback vdev.vrings_info vdev.vrings_num 0 p)

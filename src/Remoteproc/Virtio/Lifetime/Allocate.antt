-- ===== src/Remoteproc/Virtio/Lifetime/Allocate.antt =====
-- lib/remoteproc/remoteproc_virtio.c: the loop of `rproc_virtio_create_vdev` that allocates the virtqueues.
use openamp.Base.{
  ℕ, zero, suc, ◌+◌, ◌*◌, ◌≤◌, ◌<◌, ◌≡◌, ◌≢◌, ◌⊎◌, inl, inr, refl, Bool, true, false, none, some,
  arith, ◌==◌, Bool-cases, Option-cases,
}
use openamp.Base.Array.{update}
use openamp.Virtqueue.{Role, master, slave}
use openamp.Rpmsg.{u32_of}
use openamp.Remoteproc.Virtio.{VirtioVringInfo}
use openamp.Remoteproc.Virtio.Lifetime.{
  Heap, Alloc, Block, for_virtqueue, extra_descs, allocate_queues,
}
use openamp.Remoteproc.Virtio.Lifetime.Owns.{Owns, Empty, Owns-allocate}

-- `metal_allocate_memory` returns no block that is allocated already.
pub record IsAlloc (alloc : Alloc) : Type 0 where
  pub fresh :
      (heap : Heap) (block : Block) (p : ℕ) → alloc heap block ≡ some p → (p ≢ 0) × (heap p ≡ false)

-- A request for memory that was refused, with everything still allocated that `heap` has.
abbrev pub NoMemory : Alloc → (heap : Heap) → Type 0
NoMemory alloc heap =
    (h : Heap) × (block : Block) × (alloc h block ≡ none) × ((a : ℕ) → heap a ≡ true → h a ≡ true)

module _ (alloc : Alloc) (law : IsAlloc alloc) (role : Role) (size : ℕ) (table : ℕ → ℕ)
    (rsc : ℕ) where
  extra_descs-some :
      (i : ℕ)
      → rsc + 28 + 20 * i + 12 ≤ size
      → (extra : ℕ) × (extra_descs alloc role size table rsc i ≡ some extra)
  unfolding extra_descs
  extra_descs-some i inside =
      elim role as (λ r. (extra : ℕ) × (extra_descs alloc r size table rsc i ≡ some extra)) [
        | master ↦
            let off = rsc + 28 + 20 * i + 8 in
            (u32_of (table off) (table (off + 1)) (table (off + 2)) (table (off + 3)), ground arith)
        | slave ↦ (0, refl)
      ]

  -- However the allocations end, the entries hold what was allocated; they end early only where
  -- there is no memory, and else each entry has a virtqueue.
  pub allocate_queues-Owns :
      (base : Heap) (num left i : ℕ) (infos : ℕ → VirtioVringInfo) (heap : Heap)
      → i + left ≡ num
      → rsc + 28 + 20 * num ≤ size
      → Empty infos i
      → Owns base heap infos 0 num
      → ((a : ℕ) → base a ≡ true → heap a ≡ true)
      → ((j : ℕ) → j < i → (infos j).vq ≢ 0)
      → (ok : Bool) × (infos' : ℕ → VirtioVringInfo) × (heap' : Heap) × (allocate_queues alloc role
            size table rsc left i infos heap
          ≡ some (ok, infos', heap'))
        × Owns base heap' infos' 0 num
        × (((ok ≡ true) × ((j : ℕ) → j < num → (infos' j).vq ≢ 0))
            ⊎ ((ok ≡ false) × NoMemory alloc base))
  unfolding allocate_queues
  allocate_queues-Owns base num zero i infos heap e inside empty o above there =
      (true, infos, heap, refl, o, inl (refl, λ j lt. there j (omega arith)))
  allocate_queues-Owns base num (suc left) i infos heap e inside empty o above there =
      let (extra, ee) = extra_descs-some i (omega arith) in
      elim (Option-cases (alloc heap (for_virtqueue extra))) [
        | inl full ↦ (
          false,
          infos,
          heap,
          ground (arith, ee, full),
          o,
          inr (refl, (heap, for_virtqueue extra, full, above)),
        )
        | inr (vq, got) ↦
            let (nz, fresh) = law.fresh heap (for_virtqueue extra) vq got in
            let infos1 = update infos i (record (infos i) { vq = vq }) in
            let here : (infos1 i).vq ≡ vq = ground arith in
            let others : (j : ℕ) → j ≢ i → (infos1 j).vq ≡ (infos j).vq = λ j ne. ground arith in
            let (ok, infos', heap', eq, o', end) =
              allocate_queues-Owns base num left (i + 1) infos1 (update heap vq true) (omega arith)
                inside (λ j lo. ground (arith, others j, empty j))
                (Owns-allocate base heap infos i num vq nz fresh empty o infos1 here others
                  (omega arith))
                (λ a t. ground (arith, above a t))
                (λ j lt. elim (Bool-cases (j == i)) [
                  | inl same ↦ ground (arith, nz, same)
                  | inr ne ↦ ground (arith, ne, there j)
                ]) in
            (ok, infos', heap', ground (arith, ee, got, eq), o', end)
      ]

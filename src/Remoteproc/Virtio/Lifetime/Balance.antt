-- ===== src/Remoteproc/Virtio/Lifetime/Balance.antt =====
-- lib/remoteproc/remoteproc_virtio.c: what the creation of a device allocates, and its removal frees.
use std.Path.{fun_ext}
use openamp.Base.{
  ℕ, ◌+◌, ◌*◌, ◌≤◌, ◌<◌, ◌≡◌, ◌≢◌, ◌⊎◌, inl, inr, refl, ap, subst, ◌∙◌, true, false, none, bit_and,
  some, arith, ◌==◌, ==_iff, Bool-cases, Option-cases, ◌>>=◌,
}
use openamp.Base.Array.{update, load}
use openamp.Virtqueue.{Role, master, slave}
use openamp.Rpmsg.{u32_of}
use openamp.Remoteproc.RscTable.{put32}
use openamp.Remoteproc.RscTable.Vdev.{put32_other}
use openamp.Remoteproc.Virtio.{
  VirtioVringInfo, Vdev, Shared, notified, rproc_virtio_get_dfeatures, rproc_virtio_set_features,
  rproc_virtio_negotiate_features,
}
use openamp.Remoteproc.Virtio.Lifetime.{
  Heap, Alloc, for_device, for_infos, free, cleared, rproc_virtio_remove_vdev, created, settle_vdev,
  fill_vdev, rproc_virtio_create_vdev,
}
use openamp.Remoteproc.Virtio.Lifetime.Owns.{Owns, Empty, free_queues-Owns}
use openamp.Remoteproc.Virtio.Lifetime.Allocate.{IsAlloc, NoMemory, allocate_queues-Owns}

-- Blocks allocated and freed again.
one_freed :
    (heap : Heap) (self : ℕ) → heap self ≡ false → free (update heap self true) self ≡ some heap
one_freed heap self fresh =
    let back : update (update heap self true) self false ≡ heap = fun_ext (λ a.
      elim (Bool-cases (a == self)) [
        | inl e ↦ ground (arith, e, fresh, ap heap ((==_iff a self).0 e))
        | inr ne ↦ ground (arith, ne)
      ]) in
    ground (arith, ap some back)

two_freed :
    (heap : Heap) (self array : ℕ)
    → heap self ≡ false
    → update heap self true array ≡ false
    → (free (update (update heap self true) array true) array >>= λ h. free h self) ≡ some heap
two_freed heap self array fs fa =
    ground (arith, one_freed (update heap self true) array fa, one_freed heap self fs)

-- What the creation of a device leaves of its entry.
pub record KeepsEntry {P : Type 0} (role : Role) (rsc : ℕ) (s s' : Shared P) : Type 0 where
  pub num_of_vrings : s'.table (rsc + 25) ≡ s.table (rsc + 25)
  pub on_slave : role ≡ slave → s'.table ≡ s.table

-- A device that is created from the entry at `rsc`, and frees what it holds.
pub record IsCreated {P : Type 0} (role : Role) (notifyid rsc num : ℕ) (heap heap' : Heap)
    (s s' : Shared P) (vdev : Vdev) : Type 0 where
  pub removed : rproc_virtio_remove_vdev (some vdev) heap' ≡ some heap
  pub was_free : heap vdev.self ≡ false
  pub not_null : vdev.self ≢ 0
  pub rsc_is : vdev.vdev_rsc ≡ rsc
  pub role_is : vdev.role ≡ role
  pub num_is : vdev.vrings_num ≡ num
  pub notifyid_is : vdev.notifyid ≡ notifyid
  pub keeps : KeepsEntry role rsc s s'
  pub queues :
      (j : ℕ)
      → j < num
      → ((vdev.vrings_info j).vq ≢ 0)
        × (heap (vdev.vrings_info j).vq ≡ false)
        × (heap' (vdev.vrings_info j).vq ≡ true)
  pub distinct :
      (j k : ℕ) → j < num → k < num → (vdev.vrings_info j).vq ≡ (vdev.vrings_info k).vq → j ≡ k

module _ {P : Type 0} (role : Role) (size : ℕ) (notify : P → (id : ℕ) → P) (notifyid rsc : ℕ) where
  settle_vdev-some :
      (vdev : Vdev) (s : Shared P)
      → vdev.vdev_rsc + 28 ≤ size
      → (s' : Shared P) × (settle_vdev role size notify notifyid rsc vdev s ≡ some s')
        × KeepsEntry role vdev.vdev_rsc s s'
  unfolding settle_vdev rproc_virtio_negotiate_features rproc_virtio_get_dfeatures
      rproc_virtio_set_features
  settle_vdev-some vdev s inside =
      let off = vdev.vdev_rsc + 12 in
      let d = u32_of (s.table off) (s.table (off + 1)) (s.table (off + 2)) (s.table (off + 3)) in
      elim role
        as (λ r.
          (s' : Shared P) × (settle_vdev r size notify notifyid rsc vdev s ≡ some s')
          × KeepsEntry r vdev.vdev_rsc s s') [
            | master ↦ (
              notified size notify vdev s (put32 s.table (vdev.vdev_rsc + 16) (bit_and d d)),
              ground arith,
              record {
                num_of_vrings =
                    put32_other s.table (vdev.vdev_rsc + 16) (bit_and d d) (vdev.vdev_rsc + 25)
                      (inr (omega arith));
                on_slave = λ e. absurd (ground (arith, e));
              },
            )
            | slave ↦ (s, refl, record { num_of_vrings = refl; on_slave = λ _. refl })
          ]

module _ {P : Type 0} (alloc : Alloc) (law : IsAlloc alloc) (garbage : ℕ → VirtioVringInfo)
    (zeroed : (j : ℕ) → 0 < j → (garbage j).vq ≡ 0) (role : Role) (size : ℕ)
    (notify : P → (id : ℕ) → P) (notifyid rsc : ℕ) where
  fill_vdev-balanced :
      (heap : Heap) (self array num : ℕ) (s : Shared P)
      → self ≢ 0
      → heap self ≡ false
      → update heap self true array ≡ false
      → 0 < num
      → rsc + 28 + 20 * num ≤ size
      → let r =
          fill_vdev alloc garbage role size notify notifyid rsc self array num
            (update (update heap self true) array true)
            s in
        ((r ≡ some (none, heap, s)) × NoMemory alloc heap)
        ⊎ ((vdev : Vdev) × (heap' : Heap) × (s' : Shared P) × (r ≡ some (some vdev, heap', s'))
            × IsCreated role notifyid rsc num heap heap' s s' vdev)
  unfolding fill_vdev rproc_virtio_remove_vdev
  fill_vdev-balanced heap self array num s nz fs fa pos inside =
      let base = update (update heap self true) array true in
      let start : Empty (update garbage 0 cleared) 0 = λ j lo. ground (arith, zeroed j) in
      let o : Owns base base (update garbage 0 cleared) 0 num = record {
        held = λ j lo hi there. absurd (there (start j lo));
        distinct = λ j k lo hi lo' hi' there. absurd (there (start j lo));
        rest = λ a away. refl;
      } in
      let (ok, infos, heap', eq, o', end) =
        allocate_queues-Owns alloc law role size s.table rsc base num num 0
          (update garbage 0 cleared) base (omega arith) inside start o (λ a t. t)
          (λ j lt. absurd (omega arith)) in
      let freed =
        free_queues-Owns base heap' infos num 0
          (subst (Owns base heap' infos 0) (omega arith) o') in
      let vdev = created role size notify notifyid rsc self array num infos in
      let (s', settled, keeps) =
        settle_vdev-some role size notify notifyid rsc vdev s (omega arith) in
      elim end [
        | inl (e, all) ↦ inr (
          vdev,
          heap',
          s',
          ground (arith, eq, e, settled),
          record {
            removed =
                ap (λ h. h >>= λ h. free h array >>= λ h. free h self) freed
                ∙ two_freed heap self array fs fa;
            was_free = fs;
            not_null = nz;
            rsc_is = refl;
            role_is = refl;
            num_is = refl;
            notifyid_is = refl;
            keeps = keeps;
            queues = λ j lt.
                let h = o'.held j (omega arith) lt (all j lt) in
                (all j lt, ground (arith, h.1), h.0);
            distinct = λ j k lj lk. o'.distinct j k (omega arith) lj (omega arith) lk (all j lj);
          },
        )
        | inr (e, (h, block, full, above)) ↦ inl (
          ground (arith, eq, e, freed, two_freed heap self array fs fa),
          (h, block, full, λ a t. above a (ground (arith, t))),
        )
      ]

  -- For a device entry with at least one vring inside the region, a `metal_allocate_memory` that
  -- returns neither NULL as a block nor one twice, and memory for `vrings_info` whose entries
  -- behind the first hold NULL virtqueues: `rproc_virtio_create_vdev` returns NULL only where an
  -- allocation was refused while all blocks of before were allocated, with the region as it was
  -- and every block that it had allocated freed. Else it returns a device with the role, the
  -- notification id and the number of vrings of the entry, at an address that is not NULL and was
  -- free. Each of its vrings has a virtqueue of its own, which is not NULL, was free and is
  -- allocated now. `rproc_virtio_remove_vdev` frees its blocks, each once, so that the heap is the
  -- one before the creation. The number of vrings in the entry stays, and on a slave the whole
  -- region.
  pub create_vdev-balanced :
      (heap : Heap) (num : ℕ) (s : Shared P)
      → load size s.table (rsc + 25) ≡ some num
      → 0 < num
      → rsc + 28 + 20 * num ≤ size
      → let r = rproc_virtio_create_vdev alloc garbage role size notify notifyid rsc heap s in
        ((r ≡ some (none, heap, s)) × NoMemory alloc heap)
        ⊎ ((vdev : Vdev) × (heap' : Heap) × (s' : Shared P) × (r ≡ some (some vdev, heap', s'))
            × IsCreated role notifyid rsc num heap heap' s s' vdev)
  unfolding rproc_virtio_create_vdev
  create_vdev-balanced heap num s en pos inside = elim (Option-cases (alloc heap for_device)) [
    | inl e ↦ inl (ground (arith, en, e), (heap, for_device, e, λ a t. t))
    | inr (self, e) ↦
        let heap1 = update heap self true in
        let (nz, fresh) = law.fresh heap for_device self e in
        elim (Option-cases (alloc heap1 (for_infos num))) [
          | inl e' ↦ inl (
            ground (arith, en, e, e', one_freed heap self fresh),
            (heap1, for_infos num, e', λ a t. ground (arith, t)),
          )
          | inr (array, e') ↦
              let (nz', fresh') = law.fresh heap1 (for_infos num) array e' in
              let filled = fill_vdev-balanced heap self array num s nz fresh fresh' pos inside in
              let step : rproc_virtio_create_vdev alloc garbage role size notify notifyid rsc heap s
                  ≡ fill_vdev alloc garbage role size notify notifyid rsc self array num
                      (update heap1 array true) s =
                ground (arith, en, e, e') in
              rw step filled
        ]
  ]

-- ===== src/Remoteproc/Virtio/Devices/Vrings.antt =====
-- lib/remoteproc/remoteproc.c: the loop of `remoteproc_create_virtio` that maps the vrings of a device.
use openamp.Base.{
  ℕ, zero, suc, ◌+◌, ◌*◌, ◌≤◌, ◌<◌, ◌≡◌, ◌⊎◌, ◌≢◌, ◌∙◌, ap, sym, inl, inr, refl, subst, Bool, true,
  false, Option, none, some, arith, ◌==◌, ==_iff, Bool-cases,
}
use openamp.Base.Int.{is_zero}
use openamp.Rpmsg.{u32_of}
use openamp.Vring.{vring_size, int_as_size}
use openamp.Remoteproc.{Remoteproc}
use openamp.Remoteproc.Memory.{MetalIo, Mmap, remoteproc_mmap}
use openamp.Remoteproc.RscTable.{read32}
use openamp.Remoteproc.Virtio.{VirtioVringInfo, Vdev, rproc_virtio_init_vring}
use openamp.Remoteproc.Virtio.Lifetime.Same.{IsSame, init_vring-IsSame, IsSame-trans, IsSame-refl}
use openamp.Remoteproc.Virtio.Devices.{init_vrings}

read32-some :
    (size : ℕ) (table : ℕ → ℕ) (off : ℕ)
    → off + 4 ≤ size
    → (value : ℕ) × (read32 size table off ≡ some value)
read32-some size table off inside =
    (u32_of (table off) (table (off + 1)) (table (off + 2)) (table (off + 3)), ground arith)

-- A vring of the device is accepted.
accepts :
    (vdev : Vdev) (index notifyid va io num_descs align : ℕ)
    → index < vdev.vrings_num
    → is_zero (rproc_virtio_init_vring vdev index notifyid va io num_descs align).0 ≡ true
unfolding rproc_virtio_init_vring
accepts vdev index notifyid va io num_descs align lt = ground arith

-- What the device then has for this vring, and that the ones before stay.
init_vring-info :
    (vdev : Vdev) (index notifyid va io num_descs align : ℕ)
    → index < vdev.vrings_num
    → let vdev' = (rproc_virtio_init_vring vdev index notifyid va io num_descs align).1 in
      ((vdev'.vrings_info index).vaddr ≡ va)
      × ((vdev'.vrings_info index).notifyid ≡ notifyid)
      × ((vdev'.vrings_info index).num_descs ≡ num_descs)
      × ((vdev'.vrings_info index).align ≡ align)
      × ((j : ℕ) → j < index → vdev'.vrings_info j ≡ vdev.vrings_info j)
unfolding rproc_virtio_init_vring
init_vring-info vdev index notifyid va io num_descs align lt =
    (ground arith, ground arith, ground arith, ground arith, λ j before. ground arith)

-- Vring `j` of the device is mapped, and has the notification id, the number of descriptors and the
-- alignment of its entry.
abbrev pub IsMapped : (size : ℕ) → (table : ℕ → ℕ) → (rsc : ℕ) → VirtioVringInfo → (j : ℕ) → Type 0
IsMapped size table rsc info j =
    (info.vaddr ≢ 0)
    × (read32 size table (rsc + 28 + 20 * j + 12) ≡ some info.notifyid)
    × (read32 size table (rsc + 28 + 20 * j + 8) ≡ some info.num_descs)
    × (read32 size table (rsc + 28 + 20 * j + 4) ≡ some info.align)

module _ {B P : Type 0} (metal : MetalIo) (rproc : Remoteproc B) (mmap : Option (Mmap P)) (size : ℕ)
    (table : ℕ → ℕ) (rsc : ℕ) where
  -- One of the first `num` vrings of the entry for whose memory, at the device address and of the size
  -- that its entry asks for, there is no mapping.
  abbrev pub Unmapped : (num : ℕ) → Type 0
  Unmapped num =
      (i : ℕ) × (i < num)
      × (da : ℕ) × (read32 size table (rsc + 28 + 20 * i) ≡ some da)
      × (num_descs : ℕ) × (read32 size table (rsc + 28 + 20 * i + 8) ≡ some num_descs)
      × (align : ℕ) × (read32 size table (rsc + 28 + 20 * i + 4) ≡ some align)
      × (p : P) × (io : ℕ) × ((remoteproc_mmap metal rproc mmap p none (some da)
            (int_as_size (vring_size num_descs align)) 0 io).0.va
          ≡ 0)

  pub init_vrings-IsSame :
      (left i io : ℕ) (vdev : Vdev) (p : P)
      → rsc + 28 + 20 * (i + left) ≤ size
      → vdev.vrings_num ≡ i + left
      → (ok : Bool) × (vdev' : Vdev) × (p' : P) × (init_vrings metal rproc mmap size table rsc left
            i io vdev p
          ≡ some (ok, vdev', p'))
        × IsSame vdev vdev'
        × (((ok ≡ true)
              × ((j : ℕ) → i ≤ j → j < i + left → IsMapped size table rsc (vdev'.vrings_info j) j))
            ⊎ ((ok ≡ false) × Unmapped (i + left)))
        × ((j : ℕ) → j < i → vdev'.vrings_info j ≡ vdev.vrings_info j)
  unfolding init_vrings
  init_vrings-IsSame zero i io vdev p inside en = (
    true,
    vdev,
    p,
    refl,
    IsSame-refl vdev,
    inl (refl, λ j lo hi. absurd (omega arith)),
    λ j lt. refl,
  )
  init_vrings-IsSame (suc left) i io vdev p inside en =
      let vring = rsc + 28 + 20 * i in
      let (notifyid, enid) = read32-some size table (vring + 12) (omega arith) in
      let (da, ed) = read32-some size table vring (omega arith) in
      let (num_descs, ec) = read32-some size table (vring + 8) (omega arith) in
      let (align, ea) = read32-some size table (vring + 4) (omega arith) in
      let (m, p1) =
        remoteproc_mmap metal rproc mmap p none (some da) (int_as_size (vring_size num_descs align))
          0 io in
      let (ret, vdev1) = rproc_virtio_init_vring vdev i notifyid m.va m.io num_descs align in
      let same = init_vring-IsSame vdev i notifyid m.va m.io num_descs align in
      let rest =
        init_vrings-IsSame left (i + 1) m.io vdev1 p1 (omega arith) (omega (arith, same.num, en)) in
      let accepted : is_zero ret ≡ true =
        accepts vdev i notifyid m.va m.io num_descs align (omega arith) in
      elim (Bool-cases (m.va == 0)) [
        | inl null ↦ (
          false,
          vdev,
          p1,
          ground (arith, enid, ed, ec, ea, null),
          IsSame-refl vdev,
          inr (
            refl,
            (i, omega arith, da, ed, num_descs, ec, align, ea, p, io, (==_iff m.va 0).0 null),
          ),
          λ j lt. refl,
        )
        | inr there ↦
            let (ok, vdev', p', eq, more, end, keep) = rest in
            let (iva, iid, ind, ial, before) =
              init_vring-info vdev i notifyid m.va m.io num_descs align (omega arith) in
            let mapped : IsMapped size table rsc (vdev1.vrings_info i) i = (
              ground (arith, iva, there),
              enid ∙ ap some (sym iid),
              ec ∙ ap some (sym ind),
              ea ∙ ap some (sym ial),
            ) in
            let here : IsMapped size table rsc (vdev'.vrings_info i) i =
              subst (λ f. IsMapped size table rsc f i) (sym (keep i (omega arith))) mapped in
            (
              ok,
              vdev',
              p',
              ground (arith, enid, ed, ec, ea, there, accepted, eq),
              IsSame-trans vdev vdev1 vdev' same more,
              elim end [
                | inl (done, all) ↦ inl (
                  done,
                  λ j lo hi. elim (Bool-cases (j == i)) [
                    | inl e ↦
                        subst (λ k. IsMapped size table rsc (vdev'.vrings_info k) k)
                          (sym ((==_iff j i).0 e)) here
                    | inr ne ↦ all j (ground (arith, ne)) (omega arith)
                  ],
                )
                | inr (stopped, why) ↦ inr (stopped, subst Unmapped (omega arith) why)
              ],
              λ j lt. keep j (omega arith) ∙ before j lt,
            )
      ]

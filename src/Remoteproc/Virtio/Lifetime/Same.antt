-- ===== src/Remoteproc/Virtio/Lifetime/Same.antt =====
-- lib/remoteproc/remoteproc_virtio.c: the removal of a device frees the blocks that the device names, whatever
-- else `rproc_virtio_init_vring` has set in it.
use std.Path.{fun_ext}
use openamp.Base.{
  ℕ, zero, suc, ◌+◌, ◌≡◌, refl, ap, ◌∙◌, inl, inr, Bool-cases, some, arith, ◌==◌, leb,
  if◌then◌else◌, ◌>>=◌,
}
use openamp.Remoteproc.Virtio.{VirtioVringInfo, Vdev, rproc_virtio_init_vring}
use openamp.Remoteproc.Virtio.Lifetime.{Heap, free, free_queues, rproc_virtio_remove_vdev}

-- The same blocks.
pub record IsSame (vdev vdev' : Vdev) : Type 0 where
  pub self : vdev'.self ≡ vdev.self
  pub infos : vdev'.infos ≡ vdev.infos
  pub num : vdev'.vrings_num ≡ vdev.vrings_num
  pub vqs : (j : ℕ) → (vdev'.vrings_info j).vq ≡ (vdev.vrings_info j).vq

free_queues-same :
    (infos infos' : ℕ → VirtioVringInfo) (left i : ℕ) (heap : Heap)
    → ((j : ℕ) → (infos' j).vq ≡ (infos j).vq)
    → free_queues infos' left i heap ≡ free_queues infos left i heap
unfolding free_queues
free_queues-same infos infos' zero i heap same = refl
free_queues-same infos infos' (suc left) i heap same =
    ap (λ vq. (if vq == 0 then some heap else free heap vq) >>= free_queues infos' left (i + 1))
      (same i)
    ∙ ap (λ f. (if (infos i).vq == 0 then some heap else free heap (infos i).vq) >>= f)
        (fun_ext (λ h. free_queues-same infos infos' left (i + 1) h same))

pub remove-same :
    (vdev vdev' : Vdev) (heap : Heap)
    → IsSame vdev vdev'
    → rproc_virtio_remove_vdev (some vdev') heap ≡ rproc_virtio_remove_vdev (some vdev) heap
unfolding rproc_virtio_remove_vdev
remove-same vdev vdev' heap same =
    let queues =
      free_queues-same vdev.vrings_info vdev'.vrings_info vdev'.vrings_num 0 heap same.vqs in
    rw (queues, same.num, same.infos, same.self) refl

pub init_vring-IsSame :
    (vdev : Vdev) (index notifyid va io num_descs align : ℕ)
    → IsSame vdev (rproc_virtio_init_vring vdev index notifyid va io num_descs align).1
unfolding rproc_virtio_init_vring
init_vring-IsSame vdev index notifyid va io num_descs align =
    elim (Bool-cases (leb vdev.vrings_num index)) [
      | inl e ↦ record {
        self = ground arith;
        infos = ground arith;
        num = ground arith;
        vqs = λ j. ground arith;
      }
      | inr e ↦ record {
        self = ground arith;
        infos = ground arith;
        num = ground arith;
        vqs = λ j. ground arith;
      }
    ]

pub IsSame-refl : (vdev : Vdev) → IsSame vdev vdev
IsSame-refl vdev = record { self = refl; infos = refl; num = refl; vqs = λ j. refl }

pub IsSame-trans : (a b c : Vdev) → IsSame a b → IsSame b c → IsSame a c
IsSame-trans a b c p q = record {
  self = q.self ∙ p.self;
  infos = q.infos ∙ p.infos;
  num = q.num ∙ p.num;
  vqs = λ j. q.vqs j ∙ p.vqs j;
}

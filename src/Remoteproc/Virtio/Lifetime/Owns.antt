-- ===== src/Remoteproc/Virtio/Lifetime/Owns.antt =====
-- lib/remoteproc/remoteproc_virtio.c: the virtqueues that a device holds, while they are allocated and freed.
use std.Path.{fun_ext}
use openamp.Base.{
  ℕ, zero, suc, ◌+◌, ◌≤◌, ◌<◌, ◌≡◌, ◌≢◌, inl, inr, ap, sym, subst, ◌∙◌, true, false, some, arith,
  ◌==◌, ==_iff, Bool-cases,
}
use openamp.Base.Array.{update}
use openamp.Remoteproc.Virtio.{VirtioVringInfo}
use openamp.Remoteproc.Virtio.Lifetime.{Heap, free_queues}

-- The virtqueues of the entries from `i` to `n` are what `heap` has beyond `base`.
pub record Owns (base heap : Heap) (infos : ℕ → VirtioVringInfo) (i n : ℕ) : Type 0 where
  pub held :
      (j : ℕ)
      → i ≤ j
      → j < n
      → (infos j).vq ≢ 0
      → (heap (infos j).vq ≡ true) × (base (infos j).vq ≡ false)
  pub distinct :
      (j k : ℕ)
      → i ≤ j
      → j < n
      → i ≤ k
      → k < n
      → (infos j).vq ≢ 0
      → (infos j).vq ≡ (infos k).vq
      → j ≡ k
  pub rest :
      (a : ℕ) → ((j : ℕ) → i ≤ j → j < n → (infos j).vq ≢ 0 → (infos j).vq ≢ a) → heap a ≡ base a

from_next {ℓ} :
    (Q : ℕ → Type ℓ) (i n : ℕ)
    → Q i
    → ((j : ℕ) → i + 1 ≤ j → j < n → Q j)
    → (j : ℕ) → i ≤ j
    → j < n
    → Q j
from_next Q i n base step j lo hi = elim (Bool-cases (i == j)) [
  | inl e ↦ subst Q ((==_iff i j).0 e) base
  | inr ne ↦ step j (ground arith) hi
]

-- A round of the loop that frees.
Owns-free :
    (base heap : Heap) (infos : ℕ → VirtioVringInfo) (i n : ℕ)
    → i < n
    → (infos i).vq ≢ 0
    → Owns base heap infos i n
    → Owns base (update heap (infos i).vq false) infos (i + 1) n
Owns-free base heap infos i n lt there o = record {
  held = λ j lo hi nz.
      ground
        (arith, o.held j (omega arith) hi nz, o.distinct j i (omega arith) hi (omega arith) lt nz);
  distinct = λ j k lo hi lo' hi'. o.distinct j k (omega arith) hi (omega arith) hi';
  rest = λ a away. elim (Bool-cases (a == (infos i).vq)) [
    | inl e ↦
        let same = (==_iff a (infos i).vq).0 e in
        ground (arith, e, ap base same, o.held i (omega arith) lt there)
    | inr ne ↦ ground (
      arith,
      ne,
      o.rest a (from_next (λ j. (infos j).vq ≢ 0 → (infos j).vq ≢ a) i n (λ nz. ground arith) away),
    )
  ];
}

Owns-skip :
    (base heap : Heap) (infos : ℕ → VirtioVringInfo) (i n : ℕ)
    → (infos i).vq ≡ 0
    → Owns base heap infos i n
    → Owns base heap infos (i + 1) n
Owns-skip base heap infos i n null o = record {
  held = λ j lo hi. o.held j (omega arith) hi;
  distinct = λ j k lo hi lo' hi'. o.distinct j k (omega arith) hi (omega arith) hi';
  rest = λ a away.
      o.rest a
        (from_next (λ j. (infos j).vq ≢ 0 → (infos j).vq ≢ a) i n (λ nz. absurd (nz null)) away);
}

pub free_queues-Owns :
    (base heap : Heap) (infos : ℕ → VirtioVringInfo) (left i : ℕ)
    → Owns base heap infos i (i + left)
    → free_queues infos left i heap ≡ some base
unfolding free_queues
free_queues-Owns base heap infos zero i o =
    ap some (fun_ext (λ a. o.rest a (λ j lo hi. absurd (omega arith))))
free_queues-Owns base heap infos (suc left) i o =
    let same : i + suc left ≡ i + 1 + left = omega arith in
    elim (Bool-cases ((infos i).vq == 0)) [
      | inl null ↦
          let skipped =
            Owns-skip base heap infos i (i + suc left) ((==_iff (infos i).vq 0).0 null) o in
          ground (
            arith,
            null,
            free_queues-Owns base heap infos left (i + 1)
                (subst (Owns base heap infos (i + 1)) same skipped),
          )
      | inr there ↦
          let nz : (infos i).vq ≢ 0 = ground arith in
          let heap' = update heap (infos i).vq false in
          ground (
            arith,
            there,
            o.held i (omega arith) (omega arith) nz,
            free_queues-Owns base heap' infos left (i + 1) (
                subst (Owns base heap' infos (i + 1)) same
                  (Owns-free base heap infos i (i + suc left) (omega arith) nz o)),
          )
    ]

-- The entries from `i` on hold no virtqueue yet.
abbrev pub Empty : (infos : ℕ → VirtioVringInfo) → (i : ℕ) → Type 0
Empty infos i = (j : ℕ) → i ≤ j → (infos j).vq ≡ 0

module _ (base heap : Heap) (infos : ℕ → VirtioVringInfo) (i n p : ℕ) (nz : p ≢ 0)
    (fresh : heap p ≡ false) (empty : Empty infos i) (o : Owns base heap infos 0 n) where
  -- No entry holds the new block, and `base` does not have it.
  apart : (j : ℕ) → j < n → (infos j).vq ≢ 0 → (infos j).vq ≢ p
  apart j hi there e = absurd (ground (arith, fresh, ap heap e, o.held j (omega arith) hi there))

  base-fresh : base p ≡ false
  base-fresh = sym (o.rest p (λ j lo hi. apart j hi)) ∙ fresh

  module _ (infos' : ℕ → VirtioVringInfo) (here : (infos' i).vq ≡ p)
      (others : (j : ℕ) → j ≢ i → (infos' j).vq ≡ (infos j).vq) where
    held-after :
        (j : ℕ)
        → j < n
        → (infos' j).vq ≢ 0
        → (update heap p true (infos' j).vq ≡ true) × (base (infos' j).vq ≡ false)
    held-after j hi there = elim (Bool-cases (j == i)) [
      | inl e ↦
          let at : (infos' j).vq ≡ p = ap (λ k. (infos' k).vq) ((==_iff j i).0 e) ∙ here in
          (ground (arith, at), ap base at ∙ base-fresh)
      | inr ne ↦
          let at = others j (ground arith) in
          let was = o.held j (omega arith) hi (ground (arith, at)) in
          (ground (arith, ap heap at, was.0), ap base at ∙ was.1)
    ]

    distinct-after :
        (j k : ℕ) → j < n → k < n → (infos' j).vq ≢ 0 → (infos' j).vq ≡ (infos' k).vq → j ≡ k
    distinct-after j k hi hi' there same = ground (
      arith,
      here,
      same,
      there,
      others j,
      others k,
      apart j hi,
      apart k hi',
      o.distinct j k (omega arith) hi (omega arith) hi',
    )

    pub Owns-allocate : i < n → Owns base (update heap p true) infos' 0 n
    Owns-allocate lt = record {
      held = λ j lo hi. held-after j hi;
      distinct = λ j k lo hi lo' hi'. distinct-after j k hi hi';
      rest = λ a away.
          let other : a ≢ p =
            λ e. absurd (away i (omega arith) lt (ground (arith, here)) (omega (arith, here, e))) in
          ground (
            arith,
            other,
            o.rest a (λ j lo hi there e.
                let ne : j ≢ i = λ q. there (ap (λ k. (infos k).vq) q ∙ empty i (omega arith)) in
                away j lo hi (ground (arith, others j ne)) (others j ne ∙ e)),
          );
    }

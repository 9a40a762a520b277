-- ===== src/Vring/Layout.antt =====
-- lib/include/openamp/virtio_ring.h: the three parts that `vring_init` lays out do not overlap and
-- fit into `vring_size` bytes.
use native.Mathlib.Nat.{div-add-mod, mod-lt, one-le-pow, mul-mod_right, mul-add-div}
use openamp.Base.{ℕ, ◌+◌, ◌-◌, ◌*◌, ◌/◌, ◌%◌, ◌^◌, ◌≤◌, ◌<◌, ◌≡◌, refl, ap, ◌∙◌, arith, bit_and}
use openamp.Base.Bits.{bit_and-mask}
use openamp.Vring.{
  align_up, to_int, int_as_size, size_of_desc, size_of_header, size_of_avail, size_of_used,
  vring_size, vring_init,
}

-- Rounding without a bound on the numbers.
abbrev round_up : ℕ → ℕ → ℕ
round_up x align = x + align - 1 - bit_and (x + align - 1) (align - 1)

-- `align_up` where nothing wraps.
align_up-small : (k x : ℕ) → x + 2 ^ k ≤ 2 ^ 64 → align_up x (2 ^ k) ≡ round_up x (2 ^ k)
unfolding align_up
align_up-small k x small =
    let pos : 1 ≤ 2 ^ k = one-le-pow k 2 (omega arith) in
    let mask : (2 ^ k + 2 ^ 64 - 1) % 2 ^ 64 ≡ 2 ^ k - 1 = omega arith in
    let sum : (x + (2 ^ k - 1)) % 2 ^ 64 ≡ x + 2 ^ k - 1 = omega arith in rw (mask, sum) refl

-- An `int` that is not negative.
int-small : (x : ℕ) → x < 2 ^ 31 → int_as_size (to_int x) ≡ x
unfolding to_int int_as_size
int-small x lt = ground arith

-- `round_up` rounds up to a multiple of the alignment.
round_up-mul : (k x : ℕ) → round_up x (2 ^ k) ≡ 2 ^ k * ((x + 2 ^ k - 1) / 2 ^ k)
round_up-mul k x =
    omega (arith, bit_and-mask k (x + 2 ^ k - 1), div-add-mod (x + 2 ^ k - 1) (2 ^ k))

round_up-lt : (k x : ℕ) → round_up x (2 ^ k) < x + 2 ^ k
round_up-lt k x = let pos : 1 ≤ 2 ^ k = one-le-pow k 2 (omega arith) in omega arith

round_up-le : (k x : ℕ) → x ≤ round_up x (2 ^ k)
round_up-le k x =
    let pos : 1 ≤ 2 ^ k = one-le-pow k 2 (omega arith) in
    omega (arith, bit_and-mask k (x + 2 ^ k - 1), mod-lt (x + 2 ^ k - 1) pos)

round_up-aligned : (k x : ℕ) → round_up x (2 ^ k) % 2 ^ k ≡ 0
round_up-aligned k x =
    ap (λ t. t % 2 ^ k) (round_up-mul k x) ∙ mul-mod_right (2 ^ k) ((x + 2 ^ k - 1) / 2 ^ k)

-- Moving by whole alignments commutes with rounding.
round_up-shift : (k m x : ℕ) → round_up (2 ^ k * m + x) (2 ^ k) ≡ 2 ^ k * m + round_up x (2 ^ k)
round_up-shift k m x =
    let pos : 1 ≤ 2 ^ k = one-le-pow k 2 (omega arith) in
    let regroup : 2 ^ k * m + x + 2 ^ k - 1 ≡ 2 ^ k * m + (x + 2 ^ k - 1) = omega arith in
    omega (
      arith,
      round_up-mul k x,
      round_up-mul k (2 ^ k * m + x),
      ap (λ t. 2 ^ k * (t / 2 ^ k)) regroup,
      ap (λ t. 2 ^ k * t) (mul-add-div {m = 2 ^ k} pos m (x + 2 ^ k - 1)),
    )

-- `vring_size` where the size is an `int`.
vring_size-eq :
    (num k : ℕ)
    → 26 * num + 12 + 2 ^ k ≤ 2 ^ 31
    → vring_size num (2 ^ k)
      ≡ round_up (num * size_of_desc + (size_of_header + num * size_of_avail + 2)) (2 ^ k)
        + (size_of_header + num * size_of_used + 2)
unfolding vring_size
vring_size-eq num k small =
    let part = num * size_of_desc + (size_of_header + num * size_of_avail + 2) in
    let whole : to_int (round_up part (2 ^ k) + (size_of_header + num * size_of_used + 2))
        ≡ round_up part (2 ^ k) + (size_of_header + num * size_of_used + 2) =
      unfold to_int in omega (arith, round_up-lt k part) in
    rw
      (
        int-small (num * size_of_desc) (omega arith),
        int-small part (omega arith),
        align_up-small k part (omega arith),
        int-small (round_up part (2 ^ k)) (omega (arith, round_up-lt k part)),
      )
      whole

-- For memory that starts at a multiple of the alignment, which is a power of two, where the three
-- parts and one alignment together have at most 2 ^ 31 bytes and end at 2 ^ 64 at the latest: the
-- descriptor table begins there, the available ring with its used_event and the used ring with its
-- avail_event follow without overlap, the used ring is aligned, the three end exactly after
-- `vring_size` bytes, and this `int` is not negative.
pub layout_fits :
    (num m k : ℕ)
    → 26 * num + 12 + 2 ^ k ≤ 2 ^ 31
    → 2 ^ k * m + 26 * num + 12 + 2 ^ k ≤ 2 ^ 64
    → let p = 2 ^ k * m in
      let l = vring_init num p (2 ^ k) in
      (l.desc_at ≡ p)
      × (l.desc_at + num * size_of_desc ≤ l.avail_at)
      × (l.avail_at + size_of_header + num * size_of_avail + 2 ≤ l.used_at)
      × (l.used_at % 2 ^ k ≡ 0)
      × (l.used_at + size_of_header + num * size_of_used + 2 ≡ p + vring_size num (2 ^ k))
      × (vring_size num (2 ^ k) < 2 ^ 31)
unfolding vring_init
layout_fits num m k small fits = (
  refl,
  omega (arith, avail),
  omega (arith, avail, used, round_up-le k rings),
  rw used (round_up-aligned k rings),
  omega (
    arith,
    used,
    vring_size-eq num k small,
    ap (λ x. round_up x (2 ^ k)) regroup,
    round_up-shift k m part,
  ),
  omega (arith, vring_size-eq num k small, round_up-lt k part),
)
  where
    rings : ℕ
    rings = 2 ^ k * m + num * size_of_desc + size_of_header + num * size_of_avail + 2

    part : ℕ
    part = num * size_of_desc + (size_of_header + num * size_of_avail + 2)

    regroup : rings ≡ 2 ^ k * m + part
    regroup = omega arith

    avail : (2 ^ k * m + num * size_of_desc) % 2 ^ 64 ≡ 2 ^ k * m + num * size_of_desc
    avail = omega arith

    used : (vring_init num (2 ^ k * m) (2 ^ k)).used_at ≡ round_up rings (2 ^ k)
    used =
        let inside : (2 ^ k * m + num * size_of_desc + size_of_header + num * size_of_avail + 2)
              % 2 ^ 64
            ≡ rings =
          omega arith in
        unfold vring_init in rw (avail, inside) (align_up-small k rings (omega arith))

-- ===== src/Vring.antt =====
-- lib/include/openamp/virtio_ring.h: the split ring that the two cores share, its flags, its layout
-- in memory and the test for an event.
--
-- `VringDesc` is `struct vring_desc`, `UsedElem` is `struct vring_used_elem`. `Vring` is the memory
-- that `struct vring` points into: the descriptor table, `struct vring_avail` and `struct
-- vring_used`, each array as a function of its index (`num` entries, see Base.Array). The event
-- index that each ring keeps behind its last entry is a field of its own (`vring_used_event`,
-- `vring_avail_event`).
pub mod Event
pub mod Layout
mod Tests
use openamp.Base.{ℕ, ◌+◌, ◌-◌, ◌*◌, ◌%◌, ◌^◌, Bool, bit_and, ltb, if◌then◌else◌}

pub record VringDesc : Type 0 where
  pub addr : ℕ
  pub len : ℕ
  pub flags : ℕ
  pub next : ℕ

pub record UsedElem : Type 0 where
  pub id : ℕ
  pub len : ℕ

pub record Vring : Type 0 where
  pub num : ℕ
  pub desc : ℕ → VringDesc
  pub avail_flags : ℕ
  pub avail_idx : ℕ
  pub avail_ring : ℕ → ℕ
  pub used_event : ℕ
  pub used_flags : ℕ
  pub used_idx : ℕ
  pub used_ring : ℕ → UsedElem
  pub avail_event : ℕ

-- VRING_DESC_F_NEXT, VRING_DESC_F_WRITE, VRING_DESC_F_INDIRECT
abbrev pub desc_f_next : ℕ
desc_f_next = 1

abbrev pub desc_f_write : ℕ
desc_f_write = 2

abbrev pub desc_f_indirect : ℕ
desc_f_indirect = 4

-- VRING_USED_F_NO_NOTIFY, VRING_AVAIL_F_NO_INTERRUPT
abbrev pub used_f_no_notify : ℕ
used_f_no_notify = 1

abbrev pub avail_f_no_interrupt : ℕ
avail_f_no_interrupt = 1

-- uint16_t a + b, and a - b
abbrev pub add16 : ℕ → ℕ → ℕ
add16 a b = (a + b) % 2 ^ 16

abbrev pub sub16 : ℕ → ℕ → ℕ
sub16 a b = (a + 2 ^ 16 - b % 2 ^ 16) % 2 ^ 16

-- `vring_need_event`: the differences are cast to `uint16_t`.
unfoldable pub vring_need_event : (event_idx new_idx old : ℕ) → Bool
vring_need_event event_idx new_idx old = ltb (sub16 new_idx (event_idx + 1)) (sub16 new_idx old)

-- `(x + align - 1) & ~(align - 1)` on `unsigned long`, which has 64 bits: `y & ~m` is `y` less the bits
-- that it shares with `m`. For `align` 0 the mask is all ones.
unfoldable pub align_up : ℕ → ℕ → ℕ
align_up x align =
    let mask = (align + 2 ^ 64 - 1) % 2 ^ 64 in let y = (x + mask) % 2 ^ 64 in y - bit_and y mask

-- An `int` is kept as its word of 32 bits: the assignment of a `size_t` to it, and its conversion to
-- `size_t` or `unsigned long`, which extends the sign.
unfoldable pub to_int : ℕ → ℕ
to_int x = x % 2 ^ 32

unfoldable pub int_as_size : ℕ → ℕ
int_as_size w = if ltb w (2 ^ 31) then w else w + 2 ^ 64 - 2 ^ 32

-- sizeof(struct vring_desc), of the two rings' headers, and of an entry of each
abbrev pub size_of_desc : ℕ
size_of_desc = 16

abbrev pub size_of_header : ℕ
size_of_header = 4

abbrev pub size_of_avail : ℕ
size_of_avail = 2

abbrev pub size_of_used : ℕ
size_of_used = 8

-- `vring_size`, an `int`: `size` is one from assignment to assignment.
pub vring_size : (num align : ℕ) → ℕ
unfolding align_up to_int int_as_size
vring_size num align =
    let size = to_int (num * size_of_desc) in
    let size = to_int (int_as_size size + (size_of_header + num * size_of_avail + 2)) in
    let size = to_int (align_up (int_as_size size) align) in
    to_int (int_as_size size + (size_of_header + num * size_of_used + 2))

-- What `vring_init` sets: the addresses of the three parts in the memory at `p`.
pub record VringLayout : Type 0 where
  pub desc_at : ℕ
  pub avail_at : ℕ
  pub used_at : ℕ

-- Pointers have 64 bits.
pub vring_init : (num p align : ℕ) → VringLayout
unfolding align_up
vring_init num p align =
    let avail = (p + num * size_of_desc) % 2 ^ 64 in
    record {
      desc_at = p;
      avail_at = avail;
      used_at = align_up ((avail + size_of_header + num * size_of_avail + 2) % 2 ^ 64) align;
    }

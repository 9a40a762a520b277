-- ===== src/Rpmsg/Address/Laws.antt =====
-- lib/rpmsg/rpmsg.c: the bitmap hands out each dynamic address at most once.
use openamp.Base.{
  ℕ, ◌+◌, ◌-◌, ◌≤◌, ◌<◌, ◌≡◌, ◌≢◌, ◌⊎◌, inl, inr, refl, true, false, arith, ltb, ◌==◌,
  if◌then◌else◌, Bool-cases,
}
use openamp.Rpmsg.{MetalBitmap, IsBitmap, ok, err, RpmsgError, addr_any, reserved_addresses}
use openamp.Rpmsg.Address.{
  in_bitmap, rpmsg_get_address, rpmsg_release_address, rpmsg_is_address_set, rpmsg_set_address,
}

module _ {B : Type 0} (m : MetalBitmap B) (law : IsBitmap m) (bitmap : B) (size : ℕ) where
  -- `rpmsg_get_address` either returns a dynamic address of the bitmap whose bit was clear, and sets
  -- that bit and no other, or returns RPMSG_ADDR_ANY, where all bits are set, and changes nothing.
  pub get_address_fresh :
      size ≤ addr_any - reserved_addresses
      → let (a, b) = rpmsg_get_address m bitmap size in
        ((i : ℕ) × (i < size)
          × (a ≡ reserved_addresses + i)
          × (m.is_bit_set bitmap i ≡ false)
          × ((j : ℕ) → m.is_bit_set b j ≡ (if j == i then true else m.is_bit_set bitmap j)))
        ⊎ ((a ≡ addr_any) × (b ≡ bitmap) × ((i : ℕ) → i < size → m.is_bit_set bitmap i ≡ true))
  unfolding rpmsg_get_address
  get_address_fresh h = elim (Bool-cases (ltb (m.next_clear_bit bitmap 0 size) size)) [
    | inl e ↦ rw e (
        inl (
          m.next_clear_bit bitmap 0 size,
          ground arith,
          refl,
          law.next_clear bitmap 0 size (ground arith),
          law.is_set-set bitmap (m.next_clear_bit bitmap 0 size),
        ))
    | inr e ↦
        rw e (inr (refl, refl, λ i lt. law.all_set bitmap 0 size i (omega arith) (ground arith)))
  ]

  -- `rpmsg_set_address` on a dynamic address of the bitmap succeeds and the address reads as taken,
  -- after `rpmsg_release_address` as free; every other address reads as before both times.
  pub set_release :
      (a b : ℕ)
      → reserved_addresses ≤ a
      → a < reserved_addresses + size
      → b ≢ a
      → let bit_a = rpmsg_set_address m bitmap size a in
        (bit_a.0 ≡ ok 0)
        × (rpmsg_is_address_set m bit_a.1 size a ≡ ok 1)
        × (rpmsg_is_address_set m (rpmsg_release_address m bit_a.1 size a) size a ≡ ok 0)
        × (rpmsg_is_address_set m bit_a.1 size b ≡ rpmsg_is_address_set m bitmap size b)
        × (rpmsg_is_address_set m (rpmsg_release_address m bit_a.1 size a) size b
            ≡ rpmsg_is_address_set m bitmap size b)
  unfolding rpmsg_set_address rpmsg_release_address rpmsg_is_address_set
  set_release a b lo hi ne =
      let i = a - reserved_addresses in
      let j = b - reserved_addresses in
      let set = m.set_bit bitmap i in
      (
        ground arith,
        ground (arith, law.is_set-set bitmap i i),
        ground (arith, law.is_set-clear set i i),
        ground (arith, law.is_set-set bitmap i j),
        ground (arith, law.is_set-set bitmap i j, law.is_set-clear set i j),
      )

  -- What `rpmsg_release_address` does to each bit.
  pub release_bit :
      (a j : ℕ)
      → j < size
      → m.is_bit_set (rpmsg_release_address m bitmap size a) j
        ≡ (if a == reserved_addresses + j then false else m.is_bit_set bitmap j)
  unfolding rpmsg_release_address
  release_bit a j h = ground (arith, law.is_set-clear bitmap (a - reserved_addresses) j)

  -- The answers of `rpmsg_is_address_set`, and what `rpmsg_set_address` does to each bit.
  pub address_set_cases :
      (a : ℕ)
      → ((rpmsg_is_address_set m bitmap size a ≡ ok 0)
          × (reserved_addresses ≤ a)
          × (a < reserved_addresses + size)
          × (m.is_bit_set bitmap (a - reserved_addresses) ≡ false))
        ⊎ ((rpmsg_is_address_set m bitmap size a ≡ ok 1)
            × (reserved_addresses ≤ a)
            × (a < reserved_addresses + size)
            × (m.is_bit_set bitmap (a - reserved_addresses) ≡ true))
        ⊎ ((rpmsg_is_address_set m bitmap size a ≡ err RpmsgError.param)
            × ((a < reserved_addresses) ⊎ (reserved_addresses + size ≤ a)))
  unfolding rpmsg_is_address_set
  address_set_cases a = elim (Bool-cases (in_bitmap size a)) [
    | inl e ↦ elim (Bool-cases (m.is_bit_set bitmap (a - reserved_addresses))) [
      | inl set ↦ inr (inl (rw (e, set), ground arith, ground arith, set))
      | inr clear ↦ inl (rw (e, clear), ground arith, ground arith, clear)
    ]
    | inr e ↦ inr (inr (rw e, ground arith))
  ]

  pub set_bit :
      (a j : ℕ)
      → reserved_addresses ≤ a
      → a < reserved_addresses + size
      → m.is_bit_set (rpmsg_set_address m bitmap size a).1 j
        ≡ (if j == a - reserved_addresses then true else m.is_bit_set bitmap j)
  unfolding rpmsg_set_address
  set_bit a j lo hi = ground (arith, law.is_set-set bitmap (a - reserved_addresses) j)

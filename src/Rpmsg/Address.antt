-- ===== src/Rpmsg/Address.antt =====
-- lib/rpmsg/rpmsg.c: the dynamic addresses, `rpmsg_get_address`, `rpmsg_release_address`,
-- `rpmsg_is_address_set` and `rpmsg_set_address`.
pub mod Laws
use openamp.Base.{ℕ, ◌+◌, ◌-◌, Bool, true, false, ◌&&◌, ltb, leb, if◌then◌else◌}
use openamp.Rpmsg.{MetalBitmap, Ret, ok, err, RpmsgError, addr_any, reserved_addresses}

-- `addr -= RPMSG_RESERVED_ADDRESSES; addr >= 0 && addr < size` on a signed `addr`.
abbrev pub in_bitmap : (size addr : ℕ) → Bool
in_bitmap size addr = leb reserved_addresses addr && ltb (addr - reserved_addresses) size

module _ {B : Type 0} (m : MetalBitmap B) where
  pub rpmsg_get_address : B → (size : ℕ) → ℕ × B
  rpmsg_get_address bitmap size =
      let nextbit = m.next_clear_bit bitmap 0 size in
      if ltb nextbit size
      then (reserved_addresses + nextbit, m.set_bit bitmap nextbit)
      else (addr_any, bitmap)

  pub rpmsg_release_address : B → (size addr : ℕ) → B
  rpmsg_release_address bitmap size addr =
      if in_bitmap size addr then m.clear_bit bitmap (addr - reserved_addresses) else bitmap

  pub rpmsg_is_address_set : B → (size addr : ℕ) → Ret
  rpmsg_is_address_set bitmap size addr =
      if in_bitmap size addr
      then ok (if m.is_bit_set bitmap (addr - reserved_addresses) then 1 else 0)
      else err RpmsgError.param

  pub rpmsg_set_address : B → (size addr : ℕ) → Ret × B
  rpmsg_set_address bitmap size addr =
      if in_bitmap size addr
      then (ok 0, m.set_bit bitmap (addr - reserved_addresses))
      else (err RpmsgError.param, bitmap)

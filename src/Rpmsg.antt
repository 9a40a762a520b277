-- ===== src/Rpmsg.antt =====
-- lib/include/openamp/rpmsg.h and lib/rpmsg/rpmsg_internal.h: the constants, the return codes, the
-- endpoint, the device and the name service message.
--
-- Endpoints are C structs that the application owns and that the device links by pointer: `eps` is
-- the memory of all endpoint structs, `endpoints` the list of the registered pointers. The bitmap
-- operations are libmetal's (`metal_bitmap_*`) and the way out of the device is the function pointer
-- `ops.send_offchannel_raw`: both are parameters.
pub mod Address
pub mod Endpoint
pub mod Message
pub mod Tests
use openamp.Base.{
  ℕ, zero, suc, ◌+◌, ◌-◌, ◌*◌, ◌/◌, ◌%◌, ◌^◌, ◌<◌, ◌≤◌, ◌≡◌, ◌⊎◌, inl, inr, refl, Bool, true, false,
  Option, none, some, List, [], ◌∷◌, ◌++◌, ◌==◌, if◌then◌else◌,
}

abbrev pub name_size : ℕ
name_size = 32

abbrev pub addr_bmp_size : ℕ
addr_bmp_size = 128

abbrev pub ns_ept_addr : ℕ
ns_ept_addr = 0x35

abbrev pub reserved_addresses : ℕ
reserved_addresses = 1024

abbrev pub addr_any : ℕ
addr_any = 0xffff_ffff

-- RPMSG_ERR_*
pub data RpmsgError : Type 0 where
  no_mem no_buff param dev_state buff_size init addr : RpmsgError

-- An `int` result: 0 or more, or one of the negative codes.
pub data Ret : Type 0 where
  ok : ℕ → Ret
  err : RpmsgError → Ret

pub Ret-cases : (r : Ret) → ((n : ℕ) × (r ≡ ok n)) ⊎ ((c : RpmsgError) × (r ≡ err c))
Ret-cases (ok n) = inl (n, refl)
Ret-cases (err c) = inr (c, refl)

-- `struct rpmsg_endpoint`; `rdev` says whether the pointer is set, a callback of 0 is NULL.
pub record RpmsgEndpoint : Type 0 where
  pub name : List ℕ
  pub rdev : Bool
  pub addr : ℕ
  pub dest_addr : ℕ
  pub cb : ℕ
  pub ns_unbind_cb : ℕ

-- `metal_bitmap_is_bit_set`, `metal_bitmap_set_bit`, `metal_bitmap_clear_bit` and
-- `metal_bitmap_next_clear_bit` of libmetal.
pub record MetalBitmap (B : Type 0) : Type 0 where
  pub is_bit_set : B → ℕ → Bool
  pub set_bit : B → ℕ → B
  pub clear_bit : B → ℕ → B
  pub next_clear_bit : B → (start max : ℕ) → ℕ

-- What libmetal documents of them.
pub record IsBitmap {B : Type 0} (m : MetalBitmap B) : Type 0 where
  pub is_set-set :
      (b : B) (i j : ℕ)
      → m.is_bit_set (m.set_bit b i) j ≡ (if j == i then true else m.is_bit_set b j)
  pub is_set-clear :
      (b : B) (i j : ℕ)
      → m.is_bit_set (m.clear_bit b i) j ≡ (if j == i then false else m.is_bit_set b j)
  pub next_clear :
      (b : B) (start max : ℕ)
      → m.next_clear_bit b start max < max
      → m.is_bit_set b (m.next_clear_bit b start max) ≡ false
  pub all_set :
      (b : B) (start max i : ℕ)
      → start ≤ i
      → i < m.next_clear_bit b start max
      → m.is_bit_set b i ≡ true
  pub next_bounds :
      (b : B) (start max : ℕ)
      → start ≤ max
      → (start ≤ m.next_clear_bit b start max) × (m.next_clear_bit b start max ≤ max)

-- `struct rpmsg_device`
pub record RpmsgDevice (B : Type 0) : Type 0 where
  pub endpoints : List ℕ
  pub eps : ℕ → RpmsgEndpoint
  pub ns_ept : ℕ
  pub bitmap : B
  pub ns_bind_cb : Bool
  pub has_send : Bool
  pub support_ns : Bool

-- `ops.send_offchannel_raw`, a step of the state `T` below the device: source, destination, data,
-- size, wait.
abbrev pub Send : Type 0 → Type 0
Send T = T → (src dst : ℕ) → (payload : List ℕ) → (size : ℕ) → (wait : Bool) → Ret × T

-- enum rpmsg_ns_flags
abbrev pub ns_create : ℕ
ns_create = 0

abbrev pub ns_destroy : ℕ
ns_destroy = 1

-- `struct rpmsg_ns_msg`
pub record RpmsgNsMsg : Type 0 where
  pub name : List ℕ
  pub addr : ℕ
  pub flags : ℕ

-- `strncpy (dest, src, n)`: the array of `n` characters, padded with 0. A list stands for the
-- characters of a string; it ends at its first 0 or where the list does.
unfoldable pub strncpy : (n : ℕ) → List ℕ → List ℕ
strncpy zero s = []
strncpy (suc n) [] = 0 ∷ strncpy n []
strncpy (suc n) (zero ∷ s) = 0 ∷ strncpy n []
strncpy (suc n) (suc c ∷ s) = suc c ∷ strncpy n s

-- `strncmp (a, b, n) == 0`
unfoldable pub strncmp_eq : (n : ℕ) → List ℕ → List ℕ → Bool
strncmp_eq zero a b = true
strncmp_eq (suc n) [] [] = true
strncmp_eq (suc n) [] (y ∷ b) = y == 0
strncmp_eq (suc n) (x ∷ a) [] = x == 0
strncmp_eq (suc n) (x ∷ a) (y ∷ b) =
    let rest = strncmp_eq n a b in if x == y then (if x == 0 then true else rest) else false

-- The four bytes of a `uint32_t`, low byte first.
abbrev pub u32_bytes : ℕ → List ℕ
u32_bytes w = w % 256 ∷ w / 256 % 256 ∷ w / 2 ^ 16 % 256 ∷ w / 2 ^ 24 % 256 ∷ []

abbrev pub u32_of : (a b c d : ℕ) → ℕ
u32_of a b c d = a + 256 * (b + 256 * (c + 256 * d))

-- The packed bytes of a name service message, and sizeof.
unfoldable pub ns_msg_bytes : RpmsgNsMsg → List ℕ
ns_msg_bytes m = m.name ++ (u32_bytes m.addr ++ u32_bytes m.flags)

abbrev pub sizeof_ns_msg : ℕ
sizeof_ns_msg = 40

-- Reading the fields back from memory that starts with the packed struct.
unfoldable pub read_u32 : List ℕ → Option ℕ
read_u32 (a ∷ b ∷ c ∷ d ∷ _) = some (u32_of a b c d)
read_u32 _ = none

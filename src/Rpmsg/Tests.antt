-- ===== src/Rpmsg/Tests.antt =====
-- The theorems of the endpoints applied to a device with one endpoint, over a bitmap that is a
-- function.
use openamp.Base.{
  ℕ, zero, suc, ◌+◌, ◌-◌, ◌≤◌, ◌<◌, ◌≡◌, ◌⊎◌, refl, Bool, true, false, some, List, [], ◌∷◌, arith,
  ◌==◌, if◌then◌else◌, count, length, take, drop,
}
use openamp.Base.Array.{update}
use openamp.Rpmsg.{
  MetalBitmap, IsBitmap, RpmsgEndpoint, RpmsgDevice, Send, ok, err, addr_any, strncmp_eq, read_u32,
}
use openamp.Rpmsg.Address.{rpmsg_get_address}
use openamp.Rpmsg.Address.Laws.{get_address_fresh}
use openamp.Rpmsg.Endpoint.{
  rpmsg_send_ns_message, rpmsg_create_ept, rpmsg_destroy_ept, rpmsg_get_ept_from_addr,
}
use openamp.Rpmsg.Endpoint.Registry.{IsRegistry}
use openamp.Rpmsg.Endpoint.Create.{Created, create-IsRegistry, destroy-IsRegistry}
use openamp.Rpmsg.Endpoint.Lookup.{get_ept-found}
use openamp.Rpmsg.Endpoint.Announce.{send_ns_message-roundtrip}

-- The first clear bit of the `n` bits from `i` on, or `i + n`.
pub first_clear : (b : ℕ → Bool) (n i : ℕ) → ℕ
first_clear b zero i = i
first_clear b (suc n) i = let rest = first_clear b n (i + 1) in if b i then rest else i

abbrev pub bits : MetalBitmap (ℕ → Bool)
bits = record {
  is_bit_set = λ b i. b i;
  set_bit = λ b i. update b i true;
  clear_bit = λ b i. update b i false;
  next_clear_bit = λ b start max. first_clear b (max - start) start;
}

first_clear-clear :
    (b : ℕ → Bool) (n i : ℕ) → first_clear b n i < i + n → b (first_clear b n i) ≡ false
unfolding first_clear
first_clear-clear b zero i h = ground arith
first_clear-clear b (suc n) i h = ground (arith, first_clear-clear b n (i + 1))

first_clear-full : (b : ℕ → Bool) (n i j : ℕ) → i ≤ j → j < first_clear b n i → b j ≡ true
unfolding first_clear
first_clear-full b zero i j lo hi = absurd (omega arith)
first_clear-full b (suc n) i j lo hi = ground (arith, first_clear-full b n (i + 1) j)

first_clear_bounds :
    (b : ℕ → Bool) (n i : ℕ) → (i ≤ first_clear b n i) × (first_clear b n i ≤ i + n)
unfolding first_clear
first_clear_bounds b zero i = omega arith
first_clear_bounds b (suc n) i = ground (arith, first_clear_bounds b n (i + 1))

pub bits-IsBitmap : IsBitmap bits
bits-IsBitmap = record {
  is_set-set = λ b i j. refl;
  is_set-clear = λ b i j. refl;
  next_clear = λ b start max h. first_clear-clear b (max - start) start (omega arith);
  all_set = λ b start max i lo h. first_clear-full b (max - start) start i lo h;
  next_bounds = λ b start max h. let f = first_clear_bounds b (max - start) start in omega arith;
}

-- The bitmap with the bit 0 set, and a device whose endpoint 1 has the address of that bit.
abbrev one_bit : ℕ → Bool
one_bit i = i == 0

abbrev one_ept : ℕ → RpmsgEndpoint
one_ept i = record {
  name = 0x61 ∷ [];
  rdev = i == 1;
  addr = if i == 1 then 1024 else 0;
  dest_addr = 1030;
  cb = 5;
  ns_unbind_cb = 0;
}

abbrev pub device : RpmsgDevice (ℕ → Bool)
device = record {
  endpoints = 1 ∷ [];
  eps = one_ept;
  ns_ept = 9;
  bitmap = one_bit;
  ns_bind_cb = false;
  has_send = true;
  support_ns = true;
}

pub device-IsRegistry : IsRegistry bits device
device-IsRegistry = record {
  nodup = λ p. ground arith;
  attached = λ p h. ground arith;
  bits = λ p h lo. ground arith;
  owned = λ i lt set. (1, omega arith, ground arith);
  unique = λ p q hp hq e lo. ground arith;
}

-- A transport that counts the messages.
abbrev pub counting : Send ℕ
counting t src dst payload size wait = (ok size, suc t)

get_address_fresh_example :
    let (a, b) = rpmsg_get_address bits one_bit 128 in
    ((i : ℕ) × (i < 128)
      × (a ≡ 1024 + i)
      × (one_bit i ≡ false)
      × ((j : ℕ) → b j ≡ (if j == i then true else one_bit j)))
    ⊎ ((a ≡ addr_any) × (b ≡ one_bit) × ((i : ℕ) → i < 128 → one_bit i ≡ true))
get_address_fresh_example = get_address_fresh bits bits-IsBitmap one_bit 128 (omega arith)

create-IsRegistry_example :
    Created bits bits-IsBitmap counting device device-IsRegistry 0 2
      (some (0x62 ∷ []))
      addr_any
      addr_any
      5
      0
      refl
      (rpmsg_create_ept bits counting device 0 2 (some (0x62 ∷ [])) addr_any addr_any 5 0)
create-IsRegistry_example =
    create-IsRegistry bits bits-IsBitmap counting device device-IsRegistry 0 2 (some (0x62 ∷ []))
      addr_any addr_any 5 0 refl

destroy-IsRegistry_example :
    let (rdev', t') = rpmsg_destroy_ept bits counting device 0 1 in
    IsRegistry bits rdev'
    × (count 1 rdev'.endpoints ≡ 0)
    × ((i : ℕ) → i < 128 → rdev'.bitmap i ≡ (if 1024 == 1024 + i then false else one_bit i))
destroy-IsRegistry_example =
    destroy-IsRegistry bits bits-IsBitmap counting device device-IsRegistry 0 1 (omega arith)
      (omega arith)

get_ept-found_example : rpmsg_get_ept_from_addr device 1024 ≡ some 1
get_ept-found_example =
    get_ept-found bits device device-IsRegistry 1 (omega arith) (omega arith) (omega arith)

send_ns_message-roundtrip_example :
    (bytes : List ℕ) × (let (ret, t') = counting 5 1024 0x35 bytes 40 true in
      rpmsg_send_ns_message bits counting device 5 1 1
      ≡ (elim ret [ ok n ↦ ok 0 | err c ↦ err c ], t'))
    × (length bytes ≡ 40)
    × (strncmp_eq 32 (take 32 bytes) (device.eps 1).name ≡ true)
    × (read_u32 (drop 32 bytes) ≡ some 1024)
    × (read_u32 (drop 36 bytes) ≡ some 1)
send_ns_message-roundtrip_example =
    send_ns_message-roundtrip bits counting device 5 1 1 (omega arith) refl refl (omega arith)
      (omega arith)

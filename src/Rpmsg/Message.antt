-- ===== src/Rpmsg/Message.antt =====
-- lib/rpmsg/rpmsg.c: the bytes of a name service message, and what is read out of them.
use openamp.Base.{
  ℕ, zero, suc, ◌+◌, ◌/◌, ◌%◌, ◌^◌, ◌<◌, ◌≡◌, refl, ◌∙◌, ap, true, some, List, [], ◌∷◌, ◌++◌, arith,
  length, take, drop, length-append,
}
use openamp.Rpmsg.{
  name_size, sizeof_ns_msg, strncpy, strncmp_eq, u32_bytes, u32_of, ns_msg_bytes, read_u32,
}

length-strncpy : (n : ℕ) (s : List ℕ) → length (strncpy n s) ≡ n
unfolding strncpy
length-strncpy zero s = refl
length-strncpy (suc n) [] = ap suc (length-strncpy n [])
length-strncpy (suc n) (zero ∷ s) = ap suc (length-strncpy n [])
length-strncpy (suc n) (suc c ∷ s) = ap suc (length-strncpy n s)

-- The copy compares equal to the string, up to the length of the array.
strncmp_eq-strncpy : (n : ℕ) (s : List ℕ) → strncmp_eq n (strncpy n s) s ≡ true
unfolding strncpy strncmp_eq
strncmp_eq-strncpy zero s = refl
strncmp_eq-strncpy (suc n) [] = ground arith
strncmp_eq-strncpy (suc n) (zero ∷ s) = ground arith
strncmp_eq-strncpy (suc n) (suc c ∷ s) = ground (arith, strncmp_eq-strncpy n s)

take-append : (n : ℕ) (l r : List ℕ) → length l ≡ n → take n (l ++ r) ≡ l
take-append zero [] r h = ground arith
take-append zero (x ∷ l) r h = ground arith
take-append (suc n) [] r h = ground arith
take-append (suc n) (x ∷ l) r h = ground (arith, take-append n l r)

drop-append : (n k : ℕ) (l r : List ℕ) → length l ≡ n → drop (n + k) (l ++ r) ≡ drop k r
drop-append zero k [] r h = ground arith
drop-append zero k (x ∷ l) r h = ground arith
drop-append (suc n) k [] r h = ground arith
drop-append (suc n) k (x ∷ l) r h =
    let assoc : suc n + k ≡ suc (n + k) = omega arith in
    ap (λ j. drop j (x ∷ (l ++ r))) assoc ∙ drop-append n k l r (omega arith)

u32_of-u32_bytes :
    (w : ℕ)
    → w < 2 ^ 32
    → u32_of (w % 256) (w / 256 % 256) (w / 2 ^ 16 % 256) (w / 2 ^ 24 % 256) ≡ w
u32_of-u32_bytes w h = omega arith

-- The bytes of a name service message for 32-bit address and flags: there are as many as
-- `sizeof (struct rpmsg_ns_msg)`, the name in them compares equal to the name given by `strncmp` up to
-- RPMSG_NAME_SIZE, also where it was cut off, and the address and the flags read back.
pub ns_msg_bytes-fields :
    (name : List ℕ) (addr flags : ℕ)
    → addr < 2 ^ 32
    → flags < 2 ^ 32
    → let bytes =
        ns_msg_bytes (record { name = strncpy name_size name; addr = addr; flags = flags }) in
      (length bytes ≡ sizeof_ns_msg)
      × (strncmp_eq name_size (take name_size bytes) name ≡ true)
      × (read_u32 (drop 32 bytes) ≡ some addr)
      × (read_u32 (drop 36 bytes) ≡ some flags)
unfolding ns_msg_bytes read_u32
ns_msg_bytes-fields name addr flags ha hf =
    let n = strncpy name_size name in
    let ln = length-strncpy name_size name in
    let rest = u32_bytes addr ++ u32_bytes flags in
    (
      length-append n rest ∙ ap (λ k. k + 8) ln,
      ap (λ l. strncmp_eq name_size l name) (take-append 32 n rest ln) ∙ strncmp_eq-strncpy 32 name,
      ap read_u32 (drop-append 32 0 n rest ln) ∙ ap some (u32_of-u32_bytes addr ha),
      ap read_u32 (drop-append 32 4 n rest ln) ∙ ap some (u32_of-u32_bytes flags hf),
    )

-- ===== src/Proxy/Bytes.antt =====
-- lib/include/openamp/rpmsg_retarget.h: what a message and a buffer read back as.
use openamp.Base.{
  ℕ, zero, suc, ◌+◌, ◌/◌, ◌%◌, ◌^◌, ◌≤◌, ◌<◌, ◌≡◌, refl, ap, ◌∙◌, some, List, [], ◌∷◌, ◌++◌, arith,
  length, take, drop,
}
use openamp.Rpmsg.{u32_bytes, u32_of}
use openamp.Proxy.{Syscall, take_u32, syscall_bytes, syscall_of, overlay, uninit}

-- Every field has 32 bits.
pub record IsWords (s : Syscall) : Type 0 where
  pub id : s.id < 2 ^ 32
  pub int_field1 : s.int_field1 < 2 ^ 32
  pub int_field2 : s.int_field2 < 2 ^ 32
  pub data_len : s.data_len < 2 ^ 32

pub take_u32-bytes :
    (w : ℕ) (rest : List ℕ) → w < 2 ^ 32 → take_u32 (u32_bytes w ++ rest) ≡ some (w, rest)
take_u32-bytes w rest h =
    let whole : u32_of (w % 256) (w / 256 % 256) (w / 2 ^ 16 % 256) (w / 2 ^ 24 % 256) ≡ w =
      omega arith in
    ap (λ v. some (v, rest)) whole

-- A buffer that starts with the bytes of a message reads back as the message and what is behind it.
pub syscall_of-bytes :
    (s : Syscall) (rest : List ℕ)
    → IsWords s
    → syscall_of (syscall_bytes s ++ rest) ≡ some (s, rest)
unfolding syscall_of syscall_bytes
syscall_of-bytes s rest h = ground (
  arith,
  take_u32-bytes s.id
      (u32_bytes s.int_field1 ++ (u32_bytes s.int_field2 ++ (u32_bytes s.data_len ++ rest))) h.id,
  take_u32-bytes s.int_field1 (u32_bytes s.int_field2 ++ (u32_bytes s.data_len ++ rest))
      h.int_field1,
  take_u32-bytes s.int_field2 (u32_bytes s.data_len ++ rest) h.int_field2,
  take_u32-bytes s.data_len rest h.data_len,
)

pub length-syscall_bytes :
    (s : Syscall) (rest : List ℕ) → length (syscall_bytes s ++ rest) ≡ 16 + length rest
unfolding syscall_bytes
length-syscall_bytes s rest = omega arith

pub length-uninit : (garbage : ℕ → ℕ) (n : ℕ) → length (uninit garbage n) ≡ n
unfolding uninit
length-uninit garbage zero = refl
length-uninit garbage (suc n) = ap suc (length-uninit garbage n)

-- What fits is copied whole, and the rest of the buffer stays.
pub overlay-fits :
    (buf bytes : List ℕ)
    → length bytes ≤ length buf
    → overlay buf bytes ≡ bytes ++ drop (length bytes) buf
unfolding overlay
overlay-fits [] [] h = refl
overlay-fits [] (b ∷ bytes) h = absurd (omega arith)
overlay-fits (x ∷ buf) [] h = refl
overlay-fits (x ∷ buf) (b ∷ bytes) h = ap (λ bs. b ∷ bs) (overlay-fits buf bytes (omega arith))

pub take-whole : (n : ℕ) (bytes rest : List ℕ) → length bytes ≡ n → take n (bytes ++ rest) ≡ bytes
take-whole zero [] rest h = ground arith
take-whole zero (b ∷ bytes) rest h = absurd (omega arith)
take-whole (suc n) [] rest h = absurd (omega arith)
take-whole (suc n) (b ∷ bytes) rest h = ap (λ bs. b ∷ bs) (take-whole n bytes rest (omega arith))

pub take-all : (n : ℕ) (bytes : List ℕ) → length bytes ≤ n → take n bytes ≡ bytes
take-all zero [] h = refl
take-all zero (b ∷ bytes) h = absurd (omega arith)
take-all (suc n) [] h = refl
take-all (suc n) (b ∷ bytes) h = ap (λ bs. b ∷ bs) (take-all n bytes (omega arith))

-- A message that fits into a buffer reads back from it.
pub read_back :
    (buf : List ℕ) (s : Syscall) (payload : List ℕ)
    → 16 + length payload ≤ length buf
    → IsWords s
    → syscall_of (overlay buf (syscall_bytes s ++ payload))
      ≡ some (s, payload ++ drop (16 + length payload) buf)
unfolding syscall_bytes
read_back buf s payload fits w =
    let all = syscall_bytes s ++ payload in
    let size : length all ≡ 16 + length payload = length-syscall_bytes s payload in
    ap syscall_of (overlay-fits buf all (omega (arith, size)))
    ∙ syscall_of-bytes s (payload ++ drop (length all) buf) w
    ∙ ap (λ n. some (s, payload ++ drop n buf)) size

-- The same for a message without data.
pub read_back_short :
    (buf : List ℕ) (s : Syscall)
    → 16 ≤ length buf
    → IsWords s
    → syscall_of (overlay buf (syscall_bytes s)) ≡ some (s, drop 16 buf)
unfolding syscall_bytes
read_back_short buf s fits w = read_back buf s [] (omega arith) w

pub take_u32-syscall :
    (s : Syscall) (payload : List ℕ)
    → s.id < 2 ^ 32
    → (rest : List ℕ) × (take_u32 (syscall_bytes s ++ payload) ≡ some (s.id, rest))
unfolding syscall_bytes
take_u32-syscall s payload h = (_, take_u32-bytes s.id _ h)

pub take-first : (bytes more rest : List ℕ) → take (length bytes) ((bytes ++ more) ++ rest) ≡ bytes
take-first [] more rest = refl
take-first (b ∷ bytes) more rest = ap (λ bs. b ∷ bs) (take-first bytes more rest)

pub overlay-empty : (buf : List ℕ) → overlay buf [] ≡ buf
unfolding overlay
overlay-empty [] = refl
overlay-empty (x ∷ buf) = refl

-- A copy of as many bytes as the buffer has.
pub overlay-take :
    (buf bytes rest : List ℕ)
    → length buf ≤ length bytes
    → overlay buf (take (length buf) (bytes ++ rest)) ≡ overlay buf bytes
unfolding overlay
overlay-take [] bytes rest h = refl
overlay-take (x ∷ buf) [] rest h = absurd (omega arith)
overlay-take (x ∷ buf) (b ∷ bytes) rest h =
    ap (λ bs. b ∷ bs) (overlay-take buf bytes rest (omega arith))

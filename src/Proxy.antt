-- ===== src/Proxy.antt =====
-- lib/include/openamp/rpmsg_retarget.h: the messages of the remote procedure calls of file I/O.
--
-- A C `int` is its 32-bit word, so that a number of 2 ^ 31 or more is negative. A buffer is the list of its
-- bytes; memory on the stack that nothing has written holds `garbage`.
pub mod Bytes
pub mod Retarget
pub mod Server
mod Remote
mod Tests
use openamp.Base.{
  ℕ, zero, suc, ◌-◌, ◌^◌, Bool, not, ◌&&◌, Option, none, some, List, [], ◌∷◌, ◌++◌, leb, ◌==◌,
  ◌>>=◌,
}
use openamp.Rpmsg.{u32_bytes, u32_of}

-- OPEN_SYSCALL_ID, CLOSE_SYSCALL_ID, WRITE_SYSCALL_ID, READ_SYSCALL_ID and TERM_SYSCALL_ID
abbrev pub open_id : ℕ
open_id = 1

abbrev pub close_id : ℕ
close_id = 2

abbrev pub write_id : ℕ
write_id = 3

abbrev pub read_id : ℕ
read_id = 4

abbrev pub term_id : ℕ
term_id = 6

-- -EINVAL
abbrev pub minus_einval : ℕ
minus_einval = 2 ^ 32 - 22

abbrev pub is_negative : (w : ℕ) → Bool
is_negative w = leb (2 ^ 31) w

abbrev pub is_positive : (w : ℕ) → Bool
is_positive w = not (w == 0) && not (is_negative w)

-- `struct rpmsg_rpc_syscall`
pub record Syscall : Type 0 where
  pub id : ℕ
  pub int_field1 : ℕ
  pub int_field2 : ℕ
  pub data_len : ℕ

abbrev pub sizeof_syscall : ℕ
sizeof_syscall = 16

-- MAX_BUF_LEN, and RPC_BUFF_SIZE of the server
abbrev pub max_buf_len : ℕ
max_buf_len = 496

-- Its bytes, and the one that a buffer starts with, with the bytes behind it.
pub syscall_bytes : Syscall → List ℕ
syscall_bytes s =
    u32_bytes s.id ++ (u32_bytes s.int_field1 ++ (u32_bytes s.int_field2 ++ u32_bytes s.data_len))

abbrev pub take_u32 : List ℕ → Option (ℕ × List ℕ)
take_u32 [] = none
take_u32 (a ∷ []) = none
take_u32 (a ∷ b ∷ []) = none
take_u32 (a ∷ b ∷ c ∷ []) = none
take_u32 (a ∷ b ∷ c ∷ d ∷ bytes) = some (u32_of a b c d, bytes)

pub syscall_of : List ℕ → Option (Syscall × List ℕ)
syscall_of bytes = do
  (id, bytes) ← take_u32 bytes
  (int_field1, bytes) ← take_u32 bytes
  (int_field2, bytes) ← take_u32 bytes
  (data_len, bytes) ← take_u32 bytes
  some (
    record { id = id; int_field1 = int_field1; int_field2 = int_field2; data_len = data_len },
    bytes,
  )

-- `memcpy` of bytes into a buffer, as many as fit.
pub overlay : (buf bytes : List ℕ) → List ℕ
overlay [] bytes = []
overlay (x ∷ buf) [] = x ∷ buf
overlay (x ∷ buf) (b ∷ bytes) = b ∷ overlay buf bytes

-- `n` bytes of the stack
pub uninit : (garbage : ℕ → ℕ) → (n : ℕ) → List ℕ
uninit garbage zero = []
uninit garbage (suc n) = garbage n ∷ uninit garbage n

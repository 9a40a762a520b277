-- ===== src/Proxy/Retarget/Files.antt =====
-- lib/proxy/rpmsg_retarget.c: `_open`, `_read`, `_write` and `_close`.
--
-- Each returns the result and what became of the default RPC and the rest of the state; `none` is an access
-- outside a buffer, a NULL pointer that is followed, or a wait that outlasts the fuel. A string is the list of its
-- characters, without the 0 at its end. Lengths that the callers give are not negative.
use openamp.Base.{
  ℕ, ◌+◌, true, false, Option, none, some, List, [], ◌∷◌, ◌++◌, ltb, leb, ◌==◌, if◌then◌else◌,
  ◌>>=◌, length, take,
}
use openamp.Proxy.{
  Syscall, open_id, close_id, write_id, read_id, minus_einval, is_negative, is_positive,
  sizeof_syscall, max_buf_len, syscall_bytes, syscall_of, overlay, uninit,
}
use openamp.Proxy.Retarget.{Rpc, RpcOps, rpmsg_rpc_send}

-- A response buffer of `n + 4` bytes with the id set to 0.
abbrev pub no_id : (garbage : ℕ → ℕ) → (n : ℕ) → List ℕ
no_id garbage n = 0 ∷ 0 ∷ 0 ∷ 0 ∷ uninit garbage n

-- The bytes of the response buffer, where a call has set it.
abbrev pub response : Option Rpc → Option (Syscall × List ℕ)
response none = none
response (some rpc) = elim rpc.respbuf [ none ↦ none | some buf ↦ syscall_of buf ]

-- The result of a call that expects a response with this id.
abbrev pub field_or_einval : Syscall → (id : ℕ) → ℕ
field_or_einval resp id = if resp.id == id then resp.int_field1 else minus_einval

-- The copy of the data of a response to `_read` into the caller's buffer. A negative length, and one that
-- goes past the response buffer, are accesses outside it.
unfoldable pub copy_data : Syscall → (payload buffer : List ℕ) → Option (List ℕ)
copy_data resp payload buffer =
    if is_positive resp.int_field1
    then (if is_negative resp.data_len
        then none
        else (let n = if ltb (length buffer) resp.data_len then length buffer else resp.data_len in
            if leb n (length payload) then some (overlay buffer (take n payload)) else none))
    else some buffer

module _ {W : Type 0} (ops : RpcOps W) (garbage : ℕ → ℕ) (fuel : ℕ) where
  -- The end of `_open`, `_write` and `_close`: the call, and the field of its response.
  unfoldable pub call : Option Rpc → W → (req : List ℕ) → (id : ℕ) → Option (ℕ × Option Rpc × W)
  unfolding rpmsg_rpc_send
  call rpc w req id = do
    (ret, rpc, w) ← rpmsg_rpc_send ops fuel rpc w req (some (no_id garbage 12))
    elim (is_negative ret) [
      | true ↦ some (ret, rpc, w)
      | false ↦ do (resp, _) ← response rpc; some (field_or_einval resp id, rpc, w)
    ]

  -- `_open`; a file name of `none` is NULL, which `strlen` follows.
  unfoldable pub sys_open :
      Option Rpc → W → (filename : Option (List ℕ)) → (flags mode : ℕ) → Option (ℕ × Option Rpc × W)
  unfolding call
  sys_open rpc w none flags mode = none
  sys_open rpc w (some filename) flags mode =
      let filename_len = length filename + 1 in
      if ltb max_buf_len (sizeof_syscall + filename_len)
      then some (minus_einval, rpc, w)
      else elim rpc [
        | none ↦ some (minus_einval, none, w)
        | some default ↦
            call (some default) w
              (syscall_bytes (record {
                id = open_id;
                int_field1 = flags;
                int_field2 = mode;
                data_len = filename_len;
              })
                ++ (filename ++ (0 ∷ [])))
              open_id
      ]

  -- `_read`, with the buffer after it; a buffer of `none` is NULL.
  unfoldable pub sys_read :
      Option Rpc
      → W
      → (fd : ℕ) → (buffer : Option (List ℕ)) → Option (ℕ × Option (List ℕ) × Option Rpc × W)
  unfolding rpmsg_rpc_send copy_data
  sys_read rpc w fd none = some (minus_einval, none, rpc, w)
  sys_read rpc w fd (some buffer) = elim rpc [
    | none ↦ some (minus_einval, some buffer, none, w)
    | some default ↦
        if length buffer == 0 then some (minus_einval, some buffer, some default, w) else (do
          (ret, rpc, w) ←
              rpmsg_rpc_send ops fuel (some default) w
                (syscall_bytes (record {
                  id = read_id;
                  int_field1 = fd;
                  int_field2 = length buffer;
                  data_len = 0;
                }))
                (some (no_id garbage 492))
          elim (is_negative ret) [
            | true ↦ some (ret, some buffer, rpc, w)
            | false ↦ do
              (resp, payload) ← response rpc
              buffer ← if resp.id == read_id then copy_data resp payload buffer else some buffer
              some (field_or_einval resp read_id, some buffer, rpc, w)
          ])
  ]

  -- `_write` of the bytes at `ptr`. For the file descriptor 1 the message has one more byte, which is not
  -- written: the 0 goes behind it.
  unfoldable pub sys_write :
      Option Rpc → W → (fd : ℕ) → (ptr : List ℕ) → Option (ℕ × Option Rpc × W)
  unfolding call
  sys_write none w fd ptr = some (minus_einval, none, w)
  sys_write (some rpc) w fd ptr =
      let len = length ptr in
      let null_term = if fd == 1 then 1 else 0 in
      let end = sizeof_syscall + len + (if fd == 1 then 2 else 0) in
      if ltb max_buf_len end
      then none
      else call (some rpc) w
          (syscall_bytes (record {
            id = write_id;
            int_field1 = fd;
            int_field2 = len;
            data_len = len + null_term;
          })
            ++ (ptr ++ take null_term (garbage (sizeof_syscall + len) ∷ [])))
          write_id

  unfoldable pub sys_close : Option Rpc → W → (fd : ℕ) → Option (ℕ × Option Rpc × W)
  unfolding call
  sys_close none w fd = some (minus_einval, none, w)
  sys_close (some rpc) w fd =
      call (some rpc) w
        (syscall_bytes (record { id = close_id; int_field1 = fd; int_field2 = 0; data_len = 0 }))
        close_id

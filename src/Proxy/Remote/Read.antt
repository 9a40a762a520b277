-- ===== src/Proxy/Remote/Read.antt =====
-- lib/proxy/rpmsg_retarget.c and apps/examples/rpc_demo/rpc_demod.c: `_read` at the client and `handle_read`
-- at the server.
use openamp.Base.{
  ℕ, ◌+◌, ◌-◌, ◌^◌, ◌≤◌, ◌<◌, ◌≡◌, refl, ap, sym, Bool, false, true, Option, none, some, List, [],
  ◌∷◌, ◌++◌, arith, length, length-append, drop, ◌==◌, if◌then◌else◌, Bool-cases, inl, inr, ltb,
}
use openamp.Proxy.{Syscall, max_buf_len, read_id, syscall_bytes, overlay}
use openamp.Proxy.Bytes.{
  IsWords, length-syscall_bytes, length-uninit, read_back, take-whole, take_u32-syscall,
  overlay-empty, overlay-take,
}
use openamp.Proxy.Retarget.{Rpc}
use openamp.Proxy.Retarget.Files.{sys_read, copy_data, no_id}
use openamp.Proxy.Server.{Os, rpmsg_endpoint_cb, handle_rpc, handle_read}
use openamp.Proxy.Remote.{send_back, quiet, wired}
use openamp.Proxy.Remote.Answer.{answering, served, send-answered}

-- The answer to a request to read, and its data.
abbrev answer : (ret : ℕ) → Syscall
answer ret = record { id = read_id; int_field1 = ret; int_field2 = 0; data_len = ret }

-- What the client stores out of an answer with data.
copy_data-bytes :
    (bytes rest buffer : List ℕ)
    → length bytes ≤ 480
    → copy_data (answer (length bytes)) (bytes ++ rest) buffer ≡ some (overlay buffer bytes)
unfolding copy_data
copy_data-bytes [] rest buffer h = ap some (sym (overlay-empty buffer))
copy_data-bytes (b ∷ bytes) rest buffer h =
    let n = length (b ∷ bytes) in
    let there : length ((b ∷ bytes) ++ rest) ≡ n + length rest =
      omega (arith, length-append (b ∷ bytes) rest) in
    elim (Bool-cases (ltb (length buffer) n)) [
      | inl short ↦
          ground (arith, short, there, overlay-take buffer (b ∷ bytes) rest (ground (arith, short)))
      | inr fits ↦ ground (arith, fits, there, take-whole n (b ∷ bytes) rest refl)
    ]

-- The buffer of the caller after the read of the host.
abbrev pub filled : (buffer : List ℕ) → Option (List ℕ) → List ℕ
filled buffer none = buffer
filled buffer (some bytes) = overlay buffer bytes

abbrev pub bytes_of : Option (List ℕ) → List ℕ
bytes_of none = []
bytes_of (some bytes) = bytes

abbrev pub result : Option (List ℕ) → ℕ
result none = 2 ^ 32 - 1
result (some bytes) = length bytes

-- The bytes that the server asks its host for.
abbrev pub count_of : (fd buflen : ℕ) → ℕ
count_of fd buflen = if fd == 0 then 480 else buflen

result-word : (stored : Option (List ℕ)) → length (bytes_of stored) ≤ 480 → result stored < 2 ^ 32
result-word none h = omega arith
result-word (some bytes) h = omega arith

copy-filled :
    (stored : Option (List ℕ)) (rest buffer : List ℕ)
    → length (bytes_of stored) ≤ 480
    → copy_data (answer (result stored)) (bytes_of stored ++ rest) buffer
      ≡ some (filled buffer stored)
unfolding copy_data
copy-filled none rest buffer h = refl
copy-filled (some bytes) rest buffer h = copy_data-bytes bytes rest buffer h

module _ {F : Type 0} (os : Os F) (stack : List ℕ) (size : length stack ≡ max_buf_len)
    (files files' : F) (stop : Bool) (err_cnt : ℕ) (garbage : ℕ → ℕ) (fuel : ℕ) (rpc : Rpc)
    (le : 2 ≤ fuel) where
  abbrev request : (fd buflen : ℕ) → Syscall
  request fd buflen = record { id = read_id; int_field1 = fd; int_field2 = buflen; data_len = 0 }

  read_handled :
      (fd buflen : ℕ) (payload : List ℕ) (stored : Option (List ℕ))
      → os.os_read files fd (count_of fd buflen) ≡ (stored, files')
      → length (bytes_of stored) ≤ 480
      → handle_rpc os send_back (quiet files stop err_cnt).app.host (request fd buflen) payload
        ≡ some (
          0,
          false,
          record {
            files = files';
            link = (syscall_bytes (answer (result stored)) ++ bytes_of stored) ∷ [];
          },
        )
  unfolding handle_rpc handle_read syscall_bytes
  read_handled fd buflen payload none read fits = ground (arith, read)
  read_handled fd buflen payload (some bytes) read fits =
      ground (arith, read, fits, length-syscall_bytes (answer (length bytes)) bytes)

  answered :
      (fd : ℕ) (buffer : List ℕ) (stored : Option (List ℕ))
      → fd < 2 ^ 32
      → length buffer < 2 ^ 31
      → os.os_read files fd (count_of fd (length buffer)) ≡ (stored, files')
      → length (bytes_of stored) ≤ 480
      → rpmsg_endpoint_cb os send_back stack
          (quiet files stop err_cnt).app
          (syscall_bytes (request fd (length buffer)) ++ [])
        ≡ some (
            answering os stack files files' stop err_cnt
              (syscall_bytes (answer (result stored)) ++ bytes_of stored))
  answered fd buffer stored word small read fits =
      served os stack files files' stop err_cnt (request fd (length buffer)) []
        (syscall_bytes (answer (result stored)) ++ bytes_of stored) size (omega arith)
        (record {
          id = omega arith;
          int_field1 = word;
          int_field2 = omega arith;
          data_len = omega arith;
        })
        (read_handled fd (length buffer) (drop (16 + 0) stack) stored read fits)

  -- For a server with a buffer of 496 bytes whose host, asked for the file descriptor 0 for 480
  -- bytes and for any other for as many as the caller's buffer has, which is at least one and less
  -- than 2 ^ 31, stores at most 480 bytes or fails: `_read` at a client whose server is idle
  -- returns the number of these bytes, or -1, and puts as many of them as fit into the caller's
  -- buffer, whose other bytes stay; the files are as the read of the host left them, and the server
  -- is idle and without a new error. Fuel for two looks for the response is enough.
  pub remote_read :
      (fd : ℕ) (buffer : List ℕ) (stored : Option (List ℕ))
      → fd < 2 ^ 32
      → 0 < length buffer
      → length buffer < 2 ^ 31
      → os.os_read files fd (count_of fd (length buffer)) ≡ (stored, files')
      → length (bytes_of stored) ≤ 480
      → (rpc' : Rpc) × (sys_read
            (wired os stack)
            garbage
            fuel
            (some rpc)
            (quiet files stop err_cnt)
            fd
            (some buffer)
          ≡ some (result stored, some (filled buffer stored), some rpc', quiet files' stop err_cnt))
  unfolding sys_read syscall_bytes
  remote_read fd buffer stored word there small read fits =
      let req = syscall_bytes (request fd (length buffer)) in
      let s = answer (result stored) in
      let bytes = bytes_of stored in
      let buf = no_id garbage 492 in
      let room : length buf ≡ 496 = omega (arith, length-uninit garbage 492) in
      let word' = result-word stored fits in
      let w : IsWords s = record {
        id = omega arith;
        int_field1 = word';
        int_field2 = omega arith;
        data_len = word';
      } in
      let (rest, parsed) = take_u32-syscall s bytes (omega arith) in
      let sent =
        send-answered os stack files files' stop err_cnt fuel rpc req buf (syscall_bytes s ++ bytes)
          read_id rest le (omega arith) (answered fd buffer stored word small read fits) parsed
          (omega arith) in
      let back = read_back buf s bytes (omega arith) w in
      let copied = copy-filled stored (drop (16 + length bytes) buf) buffer fits in
      (
        record rpc { respbuf = some (overlay buf (syscall_bytes s ++ bytes)); nacked = true },
        ground (arith, there, sent, back, copied),
      )

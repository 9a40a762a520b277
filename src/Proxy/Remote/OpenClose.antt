-- ===== src/Proxy/Remote/OpenClose.antt =====
-- lib/proxy/rpmsg_retarget.c and apps/examples/rpc_demo/rpc_demod.c: `_open` and `_close` at the client,
-- `handle_open` and `handle_close` at the server.
use openamp.Base.{
  ℕ, zero, suc, ◌+◌, ◌^◌, ◌≤◌, ◌<◌, ◌≡◌, ◌≢◌, refl, Bool, false, some, List, [], ◌∷◌, ◌++◌, arith,
  length, length-append, drop, All,
}
use openamp.Proxy.{Syscall, max_buf_len, open_id, close_id, syscall_bytes}
use openamp.Proxy.Bytes.{IsWords, length-syscall_bytes}
use openamp.Proxy.Retarget.{Rpc}
use openamp.Proxy.Retarget.Files.{sys_open, sys_close}
use openamp.Proxy.Server.{Os, handle_rpc, handle_open, handle_close, string_of, reply}
use openamp.Proxy.Remote.{send_back, quiet, wired}
use openamp.Proxy.Remote.Answer.{call-answered, served, length-reply}

-- A string without a 0 inside reads back from its bytes.
string_of-path :
    (path rest : List ℕ)
    → All (λ c. c ≢ 0) path
    → string_of ((path ++ (0 ∷ [])) ++ rest) ≡ some path
unfolding string_of
string_of-path [] rest h = refl
string_of-path (zero ∷ path) rest h = absurd (h.0 refl)
string_of-path (suc c ∷ path) rest h = ground (arith, string_of-path path rest h.1)

module _ {F : Type 0} (os : Os F) (stack : List ℕ) (size : length stack ≡ max_buf_len) (files : F)
    (stop : Bool) (err_cnt : ℕ) (garbage : ℕ → ℕ) (fuel : ℕ) (rpc : Rpc) (le : 2 ≤ fuel) where
  open_handled :
      (path : List ℕ) (flags mode data_len : ℕ) (rest : List ℕ)
      → All (λ c. c ≢ 0) path
      → let r = os.os_open files path flags mode in
        handle_rpc os send_back
          (quiet files stop err_cnt).app.host
          (record { id = open_id; int_field1 = flags; int_field2 = mode; data_len = data_len })
          ((path ++ (0 ∷ [])) ++ rest)
        ≡ some (0, false, record { files = r.1; link = reply open_id r.0 ∷ [] })
  unfolding handle_rpc handle_open
  open_handled path flags mode data_len rest h =
      ground (
        arith,
        string_of-path path rest h,
        length-reply open_id (os.os_open files path flags mode).0,
      )

  -- For a path without a 0 inside that fits with its end and the header into 496 bytes, flags, a
  -- mode and a result of 32 bits, and a server with a buffer of 496 bytes: `_open` at a client
  -- whose server is idle returns what `open` at the server's host returns for the same path, flags
  -- and mode, and leaves the files as that `open` does, and the server idle and without a new
  -- error. Fuel for two looks for the response is enough.
  pub remote_open :
      (path : List ℕ) (flags mode : ℕ)
      → All (λ c. c ≢ 0) path
      → 16 + length path + 1 ≤ max_buf_len
      → flags < 2 ^ 32
      → mode < 2 ^ 32
      → let r = os.os_open files path flags mode in
        r.0 < 2 ^ 32
        → (rpc' : Rpc) × (sys_open
              (wired os stack)
              garbage
              fuel
              (some rpc)
              (quiet files stop err_cnt)
              (some path)
              flags
              mode
            ≡ some (r.0, some rpc', quiet r.1 stop err_cnt))
  unfolding sys_open
  remote_open path flags mode h fits flags_word mode_word ret_word =
      let payload = path ++ (0 ∷ []) in
      let s : Syscall = record {
        id = open_id;
        int_field1 = flags;
        int_field2 = mode;
        data_len = length path + 1;
      } in
      let w : IsWords s = record {
        id = omega arith;
        int_field1 = flags_word;
        int_field2 = mode_word;
        data_len = omega arith;
      } in
      let r = os.os_open files path flags mode in
      let all : length payload ≡ length path + 1 = omega (arith, length-append path (0 ∷ [])) in
      let answered =
        served os stack files r.1 stop err_cnt s payload (reply open_id r.0) size
          (omega (arith, all)) w
          (open_handled path flags mode (length path + 1) (drop (16 + length payload) stack) h) in
      let (rpc', done) =
        call-answered os stack files r.1 stop err_cnt garbage fuel rpc (syscall_bytes s ++ payload)
          open_id r.0 le (omega (arith, all, length-syscall_bytes s payload)) (omega arith) ret_word
          answered in
      (rpc', ground (arith, done))

  -- For a server with a buffer of 496 bytes, a file descriptor and a result of 32 bits: `_close` at
  -- a client whose server is idle returns what `close` at the server's host returns for the same
  -- file descriptor, and leaves the files as that `close` does, and the server idle and without a
  -- new error. Fuel for two looks for the response is enough.
  pub remote_close :
      (fd : ℕ)
      → fd < 2 ^ 32
      → let r = os.os_close files fd in
        r.0 < 2 ^ 32
        → (rpc' : Rpc) × (sys_close
              (wired os stack)
              garbage
              fuel
              (some rpc)
              (quiet files stop err_cnt)
              fd
            ≡ some (r.0, some rpc', quiet r.1 stop err_cnt))
  unfolding sys_close handle_rpc handle_close syscall_bytes
  remote_close fd word ret_word =
      let s : Syscall = record { id = close_id; int_field1 = fd; int_field2 = 0; data_len = 0 } in
      let w : IsWords s = record {
        id = omega arith;
        int_field1 = word;
        int_field2 = omega arith;
        data_len = omega arith;
      } in
      let r = os.os_close files fd in
      let answered =
        served os stack files r.1 stop err_cnt s [] (reply close_id r.0) size (omega arith) w
          (ground (arith, length-reply close_id r.0)) in
      call-answered os stack files r.1 stop err_cnt garbage fuel rpc (syscall_bytes s) close_id r.0
        le (omega arith) (omega arith) ret_word answered

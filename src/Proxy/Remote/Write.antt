-- ===== src/Proxy/Remote/Write.antt =====
-- lib/proxy/rpmsg_retarget.c and apps/examples/rpc_demo/rpc_demod.c: `_write` at the client and `handle_write`
-- at the server.
use openamp.Base.{
  ℕ, ◌+◌, ◌^◌, ◌≤◌, ◌<◌, ◌≡◌, Bool, false, some, List, [], ◌∷◌, ◌++◌, arith, length, length-append,
  drop, ◌==◌, if◌then◌else◌, Bool-cases, inl, inr,
}
use openamp.Proxy.{Syscall, max_buf_len, write_id, syscall_bytes}
use openamp.Proxy.Bytes.{IsWords, length-syscall_bytes, take-first}
use openamp.Proxy.Retarget.{Rpc}
use openamp.Proxy.Retarget.Files.{sys_write}
use openamp.Proxy.Server.{Os, rpmsg_endpoint_cb, handle_rpc, handle_write, reply}
use openamp.Proxy.Remote.{send_back, quiet, wired}
use openamp.Proxy.Remote.Answer.{answering, call-answered, length-reply, served}

module _ {F : Type 0} (os : Os F) (stack : List ℕ) (size : length stack ≡ max_buf_len) (files : F)
    (stop : Bool) (err_cnt : ℕ) where
  abbrev request : (fd len data_len : ℕ) → Syscall
  request fd len data_len = record {
    id = write_id;
    int_field1 = fd;
    int_field2 = len;
    data_len = data_len;
  }

  handled :
      (fd data_len : ℕ) (ptr more rest : List ℕ)
      → let r = os.os_write files fd ptr in
        handle_rpc os send_back
          (quiet files stop err_cnt).app.host
          (request fd (length ptr) data_len)
          ((ptr ++ more) ++ rest)
        ≡ some (0, false, record { files = r.1; link = reply write_id r.0 ∷ [] })
  unfolding handle_rpc handle_write
  handled fd data_len ptr more rest =
      let enough : length ((ptr ++ more) ++ rest) ≡ length ptr + length more + length rest =
        omega (arith, length-append (ptr ++ more) rest, length-append ptr more) in
      ground (
        arith,
        enough,
        take-first ptr more rest,
        length-reply write_id (os.os_write files fd ptr).0,
      )

  -- The server writes the bytes of the request, whatever stands behind them, and answers with the result.
  serve_write :
      (fd data_len : ℕ) (ptr more : List ℕ)
      → fd < 2 ^ 32
      → data_len < 2 ^ 32
      → length ptr + length more ≤ 480
      → let r = os.os_write files fd ptr in
        rpmsg_endpoint_cb os send_back stack
          (quiet files stop err_cnt).app
          (syscall_bytes (request fd (length ptr) data_len) ++ (ptr ++ more))
        ≡ some (answering os stack files r.1 stop err_cnt (reply write_id r.0))
  serve_write fd data_len ptr more word word' fits =
      let s = request fd (length ptr) data_len in
      let both : length (ptr ++ more) ≡ length ptr + length more = length-append ptr more in
      let w : IsWords s = record {
        id = omega arith;
        int_field1 = word;
        int_field2 = omega arith;
        data_len = word';
      } in
      served os stack files (os.os_write files fd ptr).1 stop err_cnt s (ptr ++ more)
        (reply write_id (os.os_write files fd ptr).0) size (omega (arith, both)) w
        (handled fd data_len ptr more (drop (16 + length (ptr ++ more)) stack))

  -- For a buffer of the server of 496 bytes, a file descriptor and a result of 32 bits, and bytes
  -- that fit with the header into 496 bytes, with room for two more where the file descriptor is 1:
  -- `_write` at a client whose server is idle returns what `write` at the server's host returns for
  -- the same file descriptor and the same bytes, leaves the files of the host as that `write` does,
  -- and leaves the server idle and without a new error. Fuel for two looks for the response is
  -- enough.
  pub remote_write :
      (garbage : ℕ → ℕ) (fuel : ℕ) (rpc : Rpc) (fd : ℕ) (ptr : List ℕ)
      → 2 ≤ fuel
      → fd < 2 ^ 32
      → 16 + length ptr + (if fd == 1 then 2 else 0) ≤ max_buf_len
      → let r = os.os_write files fd ptr in
        r.0 < 2 ^ 32
        → (rpc' : Rpc) × (sys_write
              (wired os stack)
              garbage
              fuel
              (some rpc)
              (quiet files stop err_cnt)
              fd
              ptr
            ≡ some (r.0, some rpc', quiet r.1 stop err_cnt))
  unfolding sys_write
  remote_write garbage fuel rpc fd ptr le word fits ret_word = elim (Bool-cases (fd == 1)) [
    | inl e ↦
        let more = garbage (16 + length ptr) ∷ [] in
        let (rpc', done) =
          call-answered os stack files (os.os_write files fd ptr).1 stop err_cnt garbage fuel rpc
            (syscall_bytes (request fd (length ptr) (length ptr + 1)) ++ (ptr ++ more)) write_id
            (os.os_write files fd ptr).0 le
            (ground (
              arith,
              fits,
              length-syscall_bytes (request fd (length ptr) (length ptr + 1)) (ptr ++ more),
              length-append ptr more,
            ))
            (omega arith) ret_word
            (serve_write fd (length ptr + 1) ptr more word (ground (arith, fits))
              (ground (arith, fits))) in
        (rpc', ground (arith, e, fits, done))
    | inr e ↦
        let (rpc', done) =
          call-answered os stack files (os.os_write files fd ptr).1 stop err_cnt garbage fuel rpc
            (syscall_bytes (request fd (length ptr) (length ptr + 0)) ++ (ptr ++ [])) write_id
            (os.os_write files fd ptr).0 le
            (ground (
              arith,
              fits,
              length-syscall_bytes (request fd (length ptr) (length ptr + 0)) (ptr ++ []),
              length-append ptr [],
            ))
            (omega arith) ret_word
            (serve_write fd (length ptr + 0) ptr [] word (ground (arith, fits))
              (ground (arith, fits))) in
        (rpc', ground (arith, e, fits, done))
  ]

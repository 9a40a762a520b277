-- ===== src/Proxy/Server.antt =====
-- apps/examples/rpc_demo/rpc_demod.c: the server of the remote procedure calls.
--
-- `Os` are the system calls of its host, `F` the files that they work on. `App` is the state of the
-- application. The endpoint sends through `W`. `stack` is what
-- the 496 bytes of a buffer hold before they are written.
pub mod Copy
use openamp.Base.{
  ℕ, zero, suc, ◌+◌, ◌-◌, ◌%◌, ◌^◌, Bool, true, false, Option, none, some, List, [], ◌∷◌, ◌++◌, ltb,
  leb, ◌==◌, if◌then◌else◌, ◌>>=◌, length, take,
}
use openamp.Proxy.{
  Syscall, open_id, close_id, write_id, read_id, term_id, is_positive, is_negative, sizeof_syscall,
  max_buf_len, syscall_bytes, syscall_of, overlay,
}

-- `open`, `close`, `read` and `write`. `read` gives the bytes that it stores, whose number it returns, or `none`,
-- for which it returns -1.
pub record Os (F : Type 0) : Type 0 where
  pub os_open : F → (path : List ℕ) → (flags mode : ℕ) → ℕ × F
  pub os_close : F → (fd : ℕ) → ℕ × F
  pub os_read : F → (fd count : ℕ) → Option (List ℕ) × F
  pub os_write : F → (fd : ℕ) → List ℕ → ℕ × F

-- What the handlers change: the files, and the other side through `rpmsg_send`.
pub record Host (F W : Type 0) : Type 0 where
  pub files : F
  pub link : W

-- The state of the application.
pub record App (F W : Type 0) : Type 0 where
  pub request_termination : Bool
  pub err_cnt : ℕ
  pub host : Host F W

-- The string that a buffer starts with; one that does not end in the buffer is an access outside it.
unfoldable pub string_of : List ℕ → Option (List ℕ)
string_of [] = none
string_of (zero ∷ bytes) = some []
string_of (suc c ∷ bytes) = do rest ← string_of bytes; some (suc c ∷ rest)

-- `ret > 0 ? 0 : ret`
abbrev pub zero_if_positive : (ret : ℕ) → ℕ
zero_if_positive ret = if is_positive ret then 0 else ret

abbrev pub reply : (id ret : ℕ) → List ℕ
reply id ret = syscall_bytes (record { id = id; int_field1 = ret; int_field2 = 0; data_len = 0 })

module _ {F W : Type 0} (os : Os F) (send : W → List ℕ → ℕ × W) where
  -- The answer to a call; the result is that of the handler.
  abbrev pub transmit : F → W → List ℕ → ℕ × Host F W
  transmit files link bytes =
      let (ret, link) = send link bytes in
      (zero_if_positive ret, record { files = files; link = link })

  -- `payload` are the bytes of the buffer behind the message `s`.
  unfoldable pub handle_open : Host F W → (s : Syscall) → (payload : List ℕ) → Option (ℕ × Host F W)
  unfolding string_of
  handle_open h s payload = do
    path ← string_of payload
    let (fd, files) = os.os_open h.files path s.int_field1 s.int_field2
    some (transmit files h.link (reply open_id fd))

  unfoldable pub handle_close : Host F W → (s : Syscall) → ℕ × Host F W
  handle_close h s =
      let (ret, files) = os.os_close h.files s.int_field1 in
      transmit files h.link (reply close_id ret)

  -- More bytes than the buffer has room for are an access outside it.
  unfoldable pub handle_read : Host F W → (s : Syscall) → Option (ℕ × Host F W)
  handle_read h s =
      let count = if s.int_field1 == 0 then 480 else s.int_field2 in
      let (stored, files) = os.os_read h.files s.int_field1 count in
      elim stored [
        | none ↦ some (
            transmit files h.link (
              syscall_bytes (record {
                id = read_id;
                int_field1 = 2 ^ 32 - 1;
                int_field2 = 0;
                data_len = 2 ^ 32 - 1;
              })))
        | some bytes ↦
            if leb (length bytes) 480
            then some (
                transmit files h.link (
                  syscall_bytes (record {
                    id = read_id;
                    int_field1 = length bytes;
                    int_field2 = 0;
                    data_len = length bytes;
                  })
                  ++ bytes))
            else none
      ]

  unfoldable pub handle_write :
      Host F W → (s : Syscall) → (payload : List ℕ) → Option (ℕ × Host F W)
  handle_write h s payload =
      if leb s.int_field2 (length payload)
      then (let (ret, files) = os.os_write h.files s.int_field1 (take s.int_field2 payload) in
          some (transmit files h.link (reply write_id ret)))
      else none

  -- `handle_rpc`: the result, and whether termination was requested. The result of an id that is none is -1.
  unfoldable pub handle_rpc :
      Host F W → (s : Syscall) → (payload : List ℕ) → Option (ℕ × Bool × Host F W)
  unfolding handle_open handle_close handle_read handle_write
  handle_rpc h s payload =
      if s.id == open_id
      then (do (ret, h) ← handle_open h s payload; some (ret, false, h))
      else (if s.id == close_id
          then (let (ret, h) = handle_close h s in some (ret, false, h))
          else (if s.id == read_id
              then (do (ret, h) ← handle_read h s; some (ret, false, h))
              else (if s.id == write_id
                  then (do (ret, h) ← handle_write h s payload; some (ret, false, h))
                  else (if s.id == term_id
                      then some (0, true, h)
                      else some (2 ^ 32 - 1, false, h)))))

  -- `rpmsg_endpoint_cb` for the message at the address `shbuf`. The copy goes to the start of the buffer.
  unfoldable pub rpmsg_endpoint_cb :
      (stack : List ℕ) → App F W → (bytes : List ℕ) → Option (App F W)
  unfolding handle_rpc
  rpmsg_endpoint_cb stack app bytes =
      if ltb (length bytes) sizeof_syscall
      then some (record app { err_cnt = app.err_cnt + 1 })
      else (do
        (s, payload) ← syscall_of (overlay stack (take max_buf_len bytes))
        (ret, stop, host) ← handle_rpc app.host s payload
        some (record app {
          request_termination = if stop then true else app.request_termination;
          err_cnt = if ret == 0 then app.err_cnt else app.err_cnt + 1;
          host = host;
        }))

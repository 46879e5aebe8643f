-- ===== src/Http/Exchange.antt =====
-- src/http/http.cpp: `Client::Do` and `Client::Get` over the `Socket` of include/etlx/net/net.hpp.
pub mod Ends
use cpp_template.Base.{
  ℕ, zero, suc, ◌+◌, Bool, true, false, Option, none, some, List, [], ◌++◌, Bytes, length, take,
  drop, ltb, ◌≡◌, ◌≤◌, ◌==◌,
}
use cpp_template.Core.{Result, ok, err, Status}
use cpp_template.Http.{Request, get_method, build_request}
use cpp_template.Http.Response.{Response, parse_response}

-- `Socket`, with what a backend promises of `Recv`: it fills at most the view that it is given.
pub record Socket : Type 1 where
  pub Connection : Type 0
  pub send : Connection → Bytes → Status × Connection
  pub recv : Connection → Bytes → Result ℕ × Connection × Bytes
  pub recv_bound :
      (s : Connection) (view : Bytes) (n : ℕ) → (recv s view).0 ≡ ok n → n ≤ length view
  pub recv_size : (s : Connection) (view : Bytes) → length (recv s view).2 ≡ length view

module _ (socket : Socket) where
  open socket use {Connection, send, recv}

  abbrev pub Answer : Type 0
  Answer = Option (Result Response × Connection × Bytes)

  -- The loop of `Do`, on fuel: the number of bytes received, with the connection and the buffer.
  unfoldable pub recv_loop : ℕ → Connection → Bytes → ℕ → Option (Result ℕ × Connection × Bytes)
  recv_loop zero s buf total = none
  recv_loop (suc f) s buf total =
      let (r, s', view) = recv s (drop total buf) in
      elim (ltb total (length buf)) [
        | false ↦ some (ok total, s, buf)
        | true ↦ elim r [
          | err e ↦ some (err e, s', take total buf ++ view)
          | ok n ↦ elim (n == 0) [
            | true ↦ some (ok total, s', take total buf ++ view)
            | false ↦ recv_loop f s' (take total buf ++ view) (total + n)
          ]
        ]
      ]

  abbrev pub with_text : Connection → Bytes → Option (Result Response) → Answer
  with_text s buf none = none
  with_text s buf (some r) = some (r, s, buf)

  abbrev pub received : Option (Result ℕ × Connection × Bytes) → Answer
  received none = none
  received (some (err e, s, buf)) = some (err e, s, buf)
  received (some (ok total, s, buf)) = with_text s buf (parse_response (take total buf))

  abbrev pub sent : ℕ → Status × Connection → Bytes → Answer
  sent f (err e, s) buf = some (err e, s, buf)
  sent f (ok u, s) buf = received (recv_loop f s buf 0)

  abbrev pub with_request : ℕ → Connection → Bytes → Option (Result ℕ × Bytes) → Answer
  with_request f s buf none = none
  with_request f s buf (some (err e, reqbuf)) = some (err e, s, buf)
  with_request f s buf (some (ok n, reqbuf)) = sent f (send s (take n reqbuf)) buf

  -- `Do`; `reqbuf` is what the 1024 bytes for the request happen to hold.
  unfoldable pub do_request : ℕ → Bytes → Connection → Request → Bytes → Answer
  do_request f reqbuf s r buf = with_request f s buf (build_request r reqbuf)

  -- `Get`
  unfoldable pub get_request : ℕ → Bytes → Connection → Bytes → Bytes → Bytes → Answer
  get_request f reqbuf s host path buf =
      do_request f reqbuf s
        (record { method = get_method; host = host; path = path; headers = []; body = [] }) buf

-- ===== src/Http/Exchange/Ends.antt =====
-- `Do` ends, and a response is parsed out of what was received.
use cpp_template.Base.{ℕ, ◌≤◌, ◌<◌, Option, some, [], ◌++◌, ◌≡◌, Bytes, length, take, drop}
use cpp_template.Core.{Error, Result, ok, err}
use cpp_template.Http.Response.{Response}
use cpp_template.Http.Response.Returns.{Framed}
use cpp_template.Http.Exchange.{Socket, Answer}

module _ (socket : Socket) where
  open socket use {Connection, send, recv, recv_bound, recv_size}

  -- The bytes that calls of `Recv` put into a space, one behind the other, until the space is full or
  -- a call gives none.
  pub data Receives : Connection → Bytes → Bytes → Type 0 where
    filled_up : {s : Connection} {space : Bytes} → length space ≡ 0 → Receives s space []
    closed :
        {s : Connection} {space : Bytes}
        → 0 < length space
        → (recv s space).0 ≡ ok 0
        → Receives s space []
    chunk :
        {s : Connection} {space rest : Bytes} (n : ℕ)
        → 0 < n
        → (recv s space).0 ≡ ok n
        → Receives (recv s space).1 (drop n (recv s space).2) rest
        → Receives s space (take n (recv s space).2 ++ rest)

  -- A call that ended: with an error, or with a response that is framed in the bytes received on the
  -- connection behind the sending of the request's text, into the space of the buffer.
  pub data Ended (s : Connection) (text space : Bytes) : Answer socket → Type 0 where
    refused :
        {e : Error} {s' : Connection} {buf : Bytes} → Ended s text space (some (err e, s', buf))
    answered :
        {r : Response} {s' : Connection} {buf : Bytes} (raw : Bytes)
        → (send s text).0 ≡ ok tt
        → Receives (send s text).1 space raw
        → length raw ≤ length space
        → Framed raw r
        → Ended s text space (some (ok r, s', buf))

  -- The receive loop ends, with the bytes received behind those that were there.
  data Received (s : Connection) (old space : Bytes)
      : Option (Result ℕ × Connection × Bytes) → Type 0 where
    broken :
        {e : Error} {s' : Connection} {buf : Bytes} → Received s old space (some (err e, s', buf))
    filled :
        {s' : Connection} {buf raw : Bytes} (n : ℕ)
        → Receives s space raw
        → take n buf ≡ old ++ raw
        → Received s old space (some (ok n, s', buf))

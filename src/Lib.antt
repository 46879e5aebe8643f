-- ===== src/Lib.antt =====
-- Verification library of etlx, a small C++ library for update agents with no heap and no
-- exceptions: results and errors, a JSON tokeniser, an update workflow, SHA-256 and HMAC, a
-- key-value store with a backend in a file, byte streams, an HTTP client, an event loop, a
-- demo program on the command line, and the objects, the keys and the channel of a secure element.
--
-- The parts and the files that model them:
-- - Core: include/etlx/core/error.hpp and result.hpp. `Error`, `Make`, `Fail`, and `Result` with
--   the early return on an error as `>>=`. Every other part returns these.
-- - Json: include/etlx/json/json.hpp and src/json/json.cpp. Json.Parse is `Parse` with its helper
--   functions, one function for each loop; Json.View is the cursor `Json` and its accessors. Inv,
--   Grow, Leaf, Sound, Brackets and Safe prove the invariant of the token array, Elements and
--   Numbers what the accessors return.
-- - Sm: include/etlx/sm/update_fsm.hpp and src/sm/update_fsm.cpp. The state classes are the
--   clauses of `on_event`; etl::fsm, which the repository does not hold, is the record `Engine`.
-- - Crypto: src/crypto/crypto.cpp. Crypto.Sha256 is include/etlx/crypto/sha256.hpp and
--   src/crypto/sha256.cpp, with each loop of `Update` and `Final` a function; its children
--   Stream, Update, Digest and Whole hold it against a byte-wise reading and against Standard,
--   which is SHA-256 in the words of FIPS 180-4.
--   Crypto.Hmac is hmac.hpp and hmac.cpp, on top of it.
-- - Io: include/etlx/io/io.hpp, src/io/io.cpp and include/etlx/crypto/stream.hpp. `Reader` and
--   `Writer` are records of a state and the virtual member; `Copy` and `HashStream` take them.
-- - FlatMap: what the store relies on of etl::flat_map, which the repository does not hold.
-- - Storage: include/etlx/storage/kv.hpp and src/storage/kv.cpp over any FlatMap.
-- - Host: ports/host/host_kv.hpp and host_kv.cpp, the store that `Load` and `Commit` keep in a
--   file; it calls the `Set` of Storage.
-- - Http: include/etlx/http/http.hpp and src/http/http.cpp, the building of a request;
--   Http.Response is the parser of a response, and Http.Exchange is `Client` over the socket of
--   include/etlx/net/net.hpp.
-- - Conf: include/etlx/conf/cli.hpp and src/conf/cli.cpp, the iterator over a command's
--   arguments; Conf.Help is the help printers, which call a writer of Io.
-- - Events: include/etlx/events/loop.hpp and src/events/loop.cpp, with the clock of
--   include/etlx/core/time.hpp. Due and Steps say what one round finds, Bounds, Grown and Weight
--   what a callback may change, Once, Posted, Ends and Again what RunOnce and Run
--   come to.
-- - Log: include/etlx/log/log.hpp and src/log/log.cpp, with the sink of ports/host/host_io.cpp.
-- - Democli: apps/democli/cli.cpp, the command table and the parser of the demo program's command
--   line, which calls the iterator of Conf. Democli.Actions is apps/democli/actions and `Main`: the
--   actions write to a writer of Io, `install` drives the workflow of Sm, failures go to Log.
-- - Net: include/etlx/net/net.hpp and ports/host/host_tcp.cpp, the POSIX socket; Net.Tls is
--   include/etlx/net/tls.hpp and src/net/tls.cpp, the TLS socket over any transport; Configured is
--   about what `Configure` leaves, Trust about `Connect`.
-- - Se: include/etlx/se and ports/se05x/object_store.cpp, the objects of a secure element; Se.Keys
--   is ports/se05x/rsa_key.cpp and ec_key.cpp. Se.Rotation is ports/se05x/scp03.cpp, the rotation
--   of the secure channel's keys; Keyed is about one key, Confirmed about the exchange. Se.Keyfile
--   is ports/se05x/scp03_keyfile.cpp, the file of those keys: Text and Lines read what is printed,
--   Rotate is the rotation that uses the file.
-- - Base: Boolean tests, lists by native indices, and decimal numerals, for all the others.
--
-- Conventions. String views and byte spans are lists of bytes, a function's effect on an object or
-- a buffer is a result beside the returned value, an etl::expected is a `Result`, an etl::optional
-- an `Option`. An int32_t is its bit pattern below 2^32, size_t and uint64_t wrap at 2^64, and
-- uint32_t arithmetic wraps at 2^32. Capacities are the defaults of include/etlx/etlx_config.hpp.
-- An access out of range, a signed overflow and a loop that uses up its fuel are a result of their
-- own (`stuck`, `crashed` or `none`), so that a theorem on what is returned also says that none of
-- them happens.
--
-- Bounds and fuel. The loops of `Parse` run on the length of the source and one more, since every
-- round moves the position; the views of Json run on the number of tokens. The padding loop of
-- `Final` runs on 64, since every round adds a byte to a buffer of 64. The block loop of `Update`
-- runs on the number of bytes, of which it takes 64 each round. `PutUInt` has room for twenty
-- digits, which a size_t never exceeds. The header loop of `ParseResponse` runs on the place of the
-- empty line and one more, since every round moves on by two. The loop of `FindKey` runs on the
-- length of the file and one more, since every line has a byte. `Copy` and the receive loop of
-- `Do` run on a fuel that the caller gives, and so do the loops of `RunOnce` and `Run`, which a
-- callback can keep going for ever.
--
-- Assumptions. Each is an argument: `Engine` for etl::fsm, `Socket` for a transport, `FlatMap` for
-- etl::flat_map, `Host` for what the calls of the C library come to in one `Commit`, and `Calls` in
-- one `Write` of a key file. The results of fwrite, fputc and fclose, which the code does not look
-- at, are among these; where a theorem needs that they succeed, it says so. The bytes of a buffer
-- that the program does not initialise are an argument as well.
--
-- `LogSink` stands for a sink of the log, `CFile` for fwrite, and what vsnprintf makes of a call is
-- an argument. A callback of the event loop is an argument as well: what it asks for, by what has
-- run so far; it calls neither RunOnce nor Run. Time points and delays are not below zero, and do
-- not overflow.
-- `Kernel` stands for the calls of the system on sockets, with `Stream` and `Descriptors` for what
-- is relied on of them, and `Mbedtls` with `Documented` for the TLS library. How often a call may
-- still ask to be repeated is a number of theirs, `patience`, which bounds the loops over it. `Sss`
-- stands for the vendor's middleware, `Channel` for its calls on the keys of the secure channel,
-- `Pk` for mbedTLS where a certificate is checked.
--
-- Not modelled: Boost.Asio, the clock and the random source of the host, which only call packages
-- or the system; of the secure element port the certificate requests, which are planned, and the
-- session and the transport, which are calls of the vendor's code or copies of it; the factory
-- tool, examples, tests and build files.
pub mod Base
pub mod Core
pub mod Sm
pub mod Json
pub mod Crypto
pub mod Events
pub mod FlatMap
pub mod Log
pub mod Storage
pub mod Host
pub mod Http
pub mod Io
pub mod Net
pub mod Se
pub mod Conf
pub mod Democli

-- ===== src/Http/Tests.antt =====
-- Witnesses for the http module.
use cpp_template.Base.{
  ℕ, ◌≤◌, length, sym, ◌∙◌, ◌≡◌, refl, some, ◌++◌, [], ◌∷◌, Bytes, codes, replicate, arith,
}
use cpp_template.Core.{ok}
use cpp_template.Http.Exchange.{Socket}
use cpp_template.Io.{SpanReader, span_read}
use cpp_template.Io.Copy.{span_read-Read}
use cpp_template.Http.Response.{
  parse_response, find_text, status_loop, header_loop, get_header, iequal, announced, trim,
  length_loop, is_digit_char, trim_back, trim_front,
}
use cpp_template.Http.Response.Returns.{Returned, Framed, parse_response-Returned}
use cpp_template.Http.{crlf, Request, post_method, build_request}
use cpp_template.Http.Build.{BuildOutcome, request_text, build_request-text}

abbrev upload : Request
upload = record {
  method = post_method;
  host = codes "example.com";
  path = codes "/upload";
  headers = record { name = codes "Accept"; value = codes "*/*" } ∷ [];
  body = codes "status=ok";
}

abbrev out : Bytes
out = replicate 200 0

build_request-text_example : BuildOutcome out (request_text upload) (build_request upload out)
build_request-text_example = build_request-text upload out (omega arith)

abbrev answer : Bytes
answer =
    codes "HTTP/1.1 200 OK"
    ++ (crlf ++ (codes "content-length: 2" ++ (crlf ++ (crlf ++ codes "ok, and more"))))

-- A response with a body that is longer than announced.
parse_answer :
    parse_response answer
    ≡ some (
        ok (record {
          status = 200;
          reason = codes "OK";
          headers = record { name = codes "content-length"; value = codes "2" } ∷ [];
          body = codes "ok";
          content_length = some 2;
        }))
unfolding parse_response find_text status_loop header_loop get_header iequal announced trim
    length_loop is_digit_char trim_back trim_front
parse_answer = refl

parse_response-Returned_example : Returned (Framed answer) (parse_response answer)
parse_response-Returned_example = parse_response-Returned answer

-- A peer that accepts every request and sends a fixed text.
ok_injective : {m n : ℕ} → ok m ≡ ok n → m ≡ n
ok_injective e = cc

peer_bound : (s : SpanReader) (view : Bytes) (n : ℕ) → (span_read s view).0 ≡ ok n → n ≤ length view
peer_bound s view n got =
    let q = span_read-Read s view in omega (arith, ok_injective (sym got ∙ q.counted), q.bound)

abbrev peer : Socket
peer = record {
  Connection = SpanReader;
  send = λ s src. (ok tt, s);
  recv = span_read;
  recv_bound = peer_bound;
  recv_size = λ s view. (span_read-Read s view).size;
}

abbrev connection : SpanReader
connection = record { contents = answer; pos = 0 }

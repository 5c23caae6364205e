-- ===== src/Http/Tests.antt =====
-- The theorems on the HTTP server at concrete requests.
use muduo_pro.Common.{
  ℕ, ◌+◌, ◌≡◌, ◌⊎◌, refl, Bool, true, false, some, List, [], ◌∷◌, ◌++◌, arith, length, codes,
  replicate, bytes_eq, compare_bytes, decimal,
}
use muduo_pro.Buffer.{Buffer, append}
use muduo_pro.Buffer.Shape.{IsValid, Holds}
use muduo_pro.Buffer.Search.{cr, lf, find_crlf, search_crlf}
use muduo_pro.Http.Request.{
  HttpRequest, HttpContext, Method, Version, expect_request_line, got_all, new_context, new_request,
  set_method, method_of, method_string,
}
use muduo_pro.Http.Parser.{
  done, fault, parse_round, request_line_round, process_request_line, split_at, process_target,
  process_version, parse_request,
}
use muduo_pro.Http.Parser.Bytes.{parse_bytes}
use muduo_pro.Http.Parser.Refine.{Agrees, parse_request_refines}
use muduo_pro.Http.Parser.Ends.{Ready, OpenIn, parse_request_returns}
use muduo_pro.Http.Parser.Pieces.{SameOutcome, parse_request_pieces}
use muduo_pro.Http.Parser.Text.{request_line, header_lines, add_headers}
use muduo_pro.Http.Parser.RoundTrip.{requested, parse_request-request}
use muduo_pro.Http.Response.{HttpResponse, not_found, new_response}
use muduo_pro.Http.Server.{
  Effect, send, shutdown, default_http_callback, bad_request_text, wants_close, on_message,
}
use muduo_pro.Http.Server.Replies.{Fits, reply, on_message-Ready, on_message-request}
use muduo_pro.Http.Server.Rejected.{parse_request_rejected_twice}

-- A buffer that holds a text.
abbrev with_text : List ℕ → Buffer
with_text xs = record {
  buffer = replicate 8 0 ++ xs;
  reader_index = 8;
  writer_index = 8 + length xs;
}

abbrev headers : List (List ℕ × List ℕ)
headers = (codes "Host", codes " a") ∷ []

abbrev get_text : List ℕ
get_text =
    request_line Method.get (codes "/") Version.http11
    ++ (cr ∷ lf ∷ header_lines headers (codes "X"))

get_text-Holds : Holds (with_text get_text) get_text
unfolding method_string
get_text-Holds = (omega arith, refl)

parse_request-request_example :
    (b' : Buffer) × (parse_request 9 (with_text get_text) new_context 7
      ≡ done true
          (record {
            state = got_all;
            request = add_headers (requested Method.get (codes "/") Version.http11 7) headers;
          })
          b')
    × Holds b' (codes "X")
parse_request-request_example =
    parse_request-request 9 Method.get (codes "/") Version.http11 headers (codes "X") 7
      get_text-Holds refl (λ e. cc) (omega arith) (omega arith) (omega arith) (omega arith)

abbrev half : List ℕ
half = codes "GET / HT"

half-Holds : Holds (with_text half) half
half-Holds = (omega arith, refl)

parse_request_refines_example :
    Agrees (parse_request 3 (with_text half) new_context 0) (parse_bytes 3 half new_context 0)
parse_request_refines_example = parse_request_refines 3 new_context 0 half-Holds

parse_request_returns_example :
    (r : Bool) × (c' : HttpContext) × (b' : Buffer) × (parse_request 9
        (with_text half)
        new_context
        0
      ≡ done r c' b')
    × (r ≡ true → OpenIn c'.state c'.request)
    × IsValid b'
parse_request_returns_example = parse_request_returns 9 new_context 0 half-Holds refl (omega arith)

abbrev other_half : List ℕ
other_half = codes "TP/1.1"

parse_half : parse_request 9 (with_text half) new_context 0 ≡ done true new_context (with_text half)
unfolding parse_request parse_round request_line_round find_crlf search_crlf
parse_half = refl

parse_request_pieces_example :
    (b₃ : Buffer) × (append (with_text half) other_half ≡ some b₃)
    × SameOutcome
        (parse_request 20 (with_text (half ++ other_half)) new_context 0)
        (parse_request 20 b₃ new_context 0)
parse_request_pieces_example =
    parse_request_pieces 20 9 20 {b = with_text (half ++ other_half)} {b₁ = with_text half}
      {b₂ = with_text half} other_half new_context new_context 0 (omega arith, refl) half-Holds refl
      (omega arith) (omega arith) (omega arith) parse_half refl (omega arith)

default-Fits :
    (req : HttpRequest) → Fits (default_http_callback req (new_response (wants_close req)))
unfolding default_http_callback new_response decimal
default-Fits req = omega arith

on_message-Ready_example :
    (effects : List Effect) × (c' : HttpContext) × (b' : Buffer) × (on_message default_http_callback
        9 new_context
        (with_text half)
        0
      ≡ some (effects, c', b'))
    × IsValid b'
    × (Ready c' ⊎ ((more : List Effect) × (effects ≡ send bad_request_text ∷ shutdown ∷ more)))
on_message-Ready_example =
    on_message-Ready default_http_callback default-Fits 9 new_context 0 half-Holds refl
      (omega arith)

on_message-request_example :
    (c' : HttpContext) × (b' : Buffer) × (on_message default_http_callback 9 new_context
        (with_text get_text)
        7
      ≡ some (
        reply default_http_callback default-Fits
            (add_headers (requested Method.get (codes "/") Version.http11 7) headers),
        c',
        b',
      ))
    × Ready c'
    × Holds b' (codes "X")
on_message-request_example =
    on_message-request default_http_callback default-Fits 9 Method.get (codes "/") Version.http11
      headers (codes "X") 7 get_text-Holds refl (λ e. cc) (omega arith) (omega arith) (omega arith)
      (omega arith)

abbrev small : HttpResponse
small = record {
  headers = (codes "A", codes "b") ∷ [];
  status_code = not_found;
  status_message = codes "Not Found";
  close_connection = false;
  body = codes "no";
}

-- A known method, a path and a version that is not HTTP.
abbrev bad_line : List ℕ
bad_line = codes "GET / FTP/1.1" ++ (13 ∷ 10 ∷ [])

abbrev stale_context : HttpContext
stale_context = record {
  state = expect_request_line;
  request = record new_request { method = Method.get; path = codes "/" };
}

bad_line_rejected :
    parse_request 20 (with_text bad_line) new_context 0
    ≡ done false stale_context (with_text bad_line)
unfolding parse_request parse_round request_line_round find_crlf search_crlf process_request_line
    split_at set_method method_of bytes_eq compare_bytes process_target process_version
bad_line_rejected = refl

parse_request_rejected_twice_example :
    parse_request 21 (with_text (bad_line ++ codes "x")) stale_context 1 ≡ fault
parse_request_rejected_twice_example =
    parse_request_rejected_twice 20 20 {b' = with_text bad_line} (codes "x") new_context
      stale_context 0 1 (omega arith, refl) refl bad_line_rejected refl (omega arith, refl)

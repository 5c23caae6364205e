-- ===== src/Http/Parser.antt =====
-- muduo/net/http/HttpServer.cc: `processRequestLine` and the loop of `parseRequest`. A range of
-- bytes is the list of them; `std::find` splits it at the first byte sought.
pub mod Bytes
pub mod Refine
pub mod Ends
pub mod Pieces
pub mod Text
pub mod RoundTrip
use muduo_pro.Common.{
  ℕ, zero, suc, ◌+◌, ◌-◌, Bool, true, false, not, ◌&&◌, Option, none, some, List, [], ◌∷◌, ◌==◌,
  if◌then◌else◌, ◌>>=◌, ◌>>◌, length, take, drop, slice, codes, bytes_eq, sub_size,
}
use muduo_pro.Buffer.{Buffer, retrieve_until}
use muduo_pro.Buffer.Search.{find_crlf}
use muduo_pro.Http.Request.{
  HttpRequest, Version, http10, http11, HttpContext, ParseState, expect_request_line,
  expect_headers, expect_body, got_all, set_method, add_header, receive_request_line,
  receive_headers, is_got_all,
}

-- `std::find`: the bytes before the first `c` and those after it.
unfoldable pub split_at : ℕ → List ℕ → Option (List ℕ × List ℕ)
split_at c [] = none
split_at c (d ∷ ds) =
    if d == c
    then some ([], ds)
    else elim (split_at c ds) [ none ↦ none | some (before, after) ↦ some (d ∷ before, after) ]

-- The last byte of "HTTP/1.x" gives the version.
abbrev pub version_of : ℕ → Option Version
version_of c = if c == b'1' then some http11 else if c == b'0' then some http10 else none

unfoldable pub process_version : HttpRequest → List ℕ → Bool × HttpRequest
process_version r text =
    if length text == 8 && bytes_eq (take 7 text) (codes "HTTP/1.")
    then elim (drop 7 text) [
      | [] ↦ (false, r)
      | c ∷ _ ↦ elim (version_of c) [
        | none ↦ (false, r)
        | some v ↦ (true, record r { version = v })
      ]
    ]
    else (false, r)

unfoldable pub process_target : HttpRequest → List ℕ → Bool × HttpRequest
unfolding process_version
process_target r text = elim (split_at b' ' text) [
  | none ↦ (false, r)
  | some (path, rest) ↦ process_version (record r { path = path }) rest
]

-- `none` is the failed assert of `setMethod`.
unfoldable pub process_request_line : List ℕ → HttpContext → Option (Bool × HttpContext)
unfolding process_target
process_request_line line c = elim (split_at b' ' line) [
  | none ↦ some (false, c)
  | some (m, rest) ↦ do
    (known, r) ← set_method c.request m
    let (succeed, r') = if known then process_target r rest else (false, r)
    some (succeed, record c { request = r' })
]

-- How a call ends: with its result, the context and the input left; at a failed assert; or not
-- within the rounds given.
pub data Parse (I : Type 0) : Type 0 where
  done : Bool → HttpContext → I → Parse I
  fault : Parse I
  unfinished : Parse I

-- From the read index to the CRLF.
abbrev pub line_to : Buffer → ℕ → List ℕ
line_to b crlf = slice b.buffer b.reader_index (sub_size crlf b.reader_index)

-- The context after the request line; the line stays in the buffer if it is bad.
unfoldable pub request_line_round :
    (Buffer → HttpContext → Parse Buffer) → Buffer → HttpContext → ℕ → Parse Buffer
request_line_round again b c time = elim (find_crlf b) [
  | none ↦ done true c b
  | some crlf ↦ elim (process_request_line (line_to b crlf) c) [
    | none ↦ fault
    | some (ok, c') ↦ elim ok [
      | true ↦ elim (retrieve_until b (crlf + 2)) [
        | none ↦ fault
        | some b' ↦ again b' (
            receive_request_line
              (record c' { request = record (c'.request) { receive_time = time } }))
      ]
      | false ↦ done false c' b
    ]
  ]
]

-- A line with no colon ends the headers.
unfoldable pub headers_round :
    (Buffer → HttpContext → Parse Buffer) → Buffer → HttpContext → Parse Buffer
headers_round again b c = elim (find_crlf b) [
  | none ↦ done true c b
  | some crlf ↦ elim (split_at b':' (line_to b crlf)) [
    | some (field, after) ↦ elim (retrieve_until b (crlf + 2)) [
      | none ↦ fault
      | some b' ↦ again b' (record c { request = add_header c.request field after })
    ]
    | none ↦ elim (retrieve_until b (crlf + 2)) [
      | none ↦ fault
      | some b' ↦ elim (is_got_all (receive_headers c).state) [
        | true ↦ done true (receive_headers c) b'
        | false ↦ again b' (receive_headers c)
      ]
    ]
  ]
]

-- One round of the loop. In a state that it does not handle it leaves all as it was.
unfoldable pub parse_round :
    ParseState → (Buffer → HttpContext → Parse Buffer) → Buffer → HttpContext → ℕ → Parse Buffer
unfolding request_line_round headers_round
parse_round expect_request_line again b c time = request_line_round again b c time
parse_round expect_headers again b c time = headers_round again b c
parse_round expect_body again b c time = again b c
parse_round got_all again b c time = again b c

-- `parseRequest`, at most so many rounds of its `while`.
unfoldable pub parse_request : ℕ → Buffer → HttpContext → ℕ → Parse Buffer
parse_request zero b c time = unfinished
parse_request (suc rounds) b c time =
    parse_round c.state (λ b' c'. parse_request rounds b' c' time) b c time

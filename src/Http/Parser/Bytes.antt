-- ===== src/Http/Parser/Bytes.antt =====
-- The parse as a function on the bytes received, with no buffer and no indices: the specification
-- of `parseRequest`.
use muduo_pro.Common.{ℕ, zero, suc, ◌+◌, Bool, true, false, Option, none, some, List, take, drop}
use muduo_pro.Buffer.Search.{search_crlf}
use muduo_pro.Http.Request.{
  HttpContext, ParseState, expect_request_line, expect_headers, expect_body, got_all, add_header,
  receive_request_line, receive_headers,
}
use muduo_pro.Http.Parser.{Parse, done, fault, unfinished, split_at, process_request_line}

-- What a request line does to the context, and whether it is good.
unfoldable pub take_request_line : List ℕ → HttpContext → ℕ → Option (Bool × HttpContext)
take_request_line line c time = elim (process_request_line line c) [
  | none ↦ none
  | some (ok, c') ↦ elim ok [
    | true ↦ some (
      true,
      receive_request_line (record c' { request = record (c'.request) { receive_time = time } }),
    )
    | false ↦ some (false, c')
  ]
]

unfoldable pub request_line_step :
    (List ℕ → HttpContext → Parse (List ℕ)) → List ℕ → HttpContext → ℕ → Parse (List ℕ)
request_line_step again xs c time = elim (search_crlf xs) [
  | none ↦ done true c xs
  | some i ↦ elim (take_request_line (take i xs) c time) [
    | none ↦ fault
    | some (ok, c') ↦ elim ok [ true ↦ again (drop (i + 2) xs) c' | false ↦ done false c' xs ]
  ]
]

unfoldable pub headers_step :
    (List ℕ → HttpContext → Parse (List ℕ)) → List ℕ → HttpContext → Parse (List ℕ)
headers_step again xs c = elim (search_crlf xs) [
  | none ↦ done true c xs
  | some i ↦ elim (split_at b':' (take i xs)) [
    | none ↦ done true (receive_headers c) (drop (i + 2) xs)
    | some (field, after) ↦
        again (drop (i + 2) xs) (record c { request = add_header c.request field after })
  ]
]

unfoldable pub parse_step :
    ParseState → (List ℕ → HttpContext → Parse (List ℕ)) → List ℕ → HttpContext → ℕ → Parse (List ℕ)
parse_step expect_request_line again xs c time = request_line_step again xs c time
parse_step expect_headers again xs c time = headers_step again xs c
parse_step expect_body again xs c time = again xs c
parse_step got_all again xs c time = again xs c

unfoldable pub parse_bytes : ℕ → List ℕ → HttpContext → ℕ → Parse (List ℕ)
parse_bytes zero xs c time = unfinished
parse_bytes (suc rounds) xs c time =
    parse_step c.state (λ xs' c'. parse_bytes rounds xs' c' time) xs c time

-- ===== src/Http/Parser/Text.antt =====
-- The text of a request, and how the parser takes its lines.
use muduo_pro.Common.{
  ℕ, zero, suc, ◌+◌, ◌<◌, ◌≡◌, ◌≢◌, refl, ◌∙◌, ap, true, some, List, [], ◌∷◌, ◌++◌, arith, take,
  drop, length, codes, bytes_eq, compare_bytes, take-append, drop-append_more,
}
use muduo_pro.Buffer.Search.{cr, lf, search_crlf, search_crlf-line, NoCr}
use muduo_pro.Http.Request.{
  HttpContext, HttpRequest, Method, Version, http10, http11, expect_headers, got_all, add_header,
  receive_headers, method_string,
}
use muduo_pro.Http.Parser.{Parse, done, split_at, process_version}
use muduo_pro.Http.Parser.Bytes.{
  take_request_line, request_line_step, headers_step, parse_step, parse_bytes,
}

-- The text has no byte `c`.
abbrev pub Lacks : ℕ → List ℕ → Type 0
Lacks c [] = Unit
Lacks c (d ∷ ds) = (d ≢ c) × Lacks c ds

pub split_at-first :
    (c : ℕ) (xs ys : List ℕ) → Lacks c xs → split_at c (xs ++ (c ∷ ys)) ≡ some (xs, ys)
unfolding split_at
split_at-first c [] ys h = ground arith
split_at-first c (x ∷ xs) ys h = ground (arith, split_at-first c xs ys h.1)

pub NoCr-append : (xs ys : List ℕ) → NoCr xs → NoCr ys → NoCr (xs ++ ys)
NoCr-append [] ys h k = k
NoCr-append (x ∷ xs) ys h k = (h.0, NoCr-append xs ys h.1 k)

abbrev pub version_string : Version → List ℕ
version_string http10 = codes "HTTP/1.0"
version_string _ = codes "HTTP/1.1"

-- `GET /path HTTP/1.1`.
abbrev pub request_line : Method → List ℕ → Version → List ℕ
request_line m path v = method_string m ++ (b' ' ∷ (path ++ (b' ' ∷ version_string v)))

-- The header lines and the empty line that ends them.
abbrev pub header_lines : List (List ℕ × List ℕ) → List ℕ → List ℕ
header_lines [] rest = cr ∷ lf ∷ rest
header_lines ((field, value) ∷ hs) rest =
    (field ++ (b':' ∷ value)) ++ (cr ∷ lf ∷ header_lines hs rest)

-- A field has no colon, and neither it nor its value has a CR.
abbrev pub AreHeaders : List (List ℕ × List ℕ) → Type 0
AreHeaders [] = Unit
AreHeaders ((field, value) ∷ hs) = Lacks b':' field × NoCr field × NoCr value × AreHeaders hs

-- The header map after these lines, in their order.
abbrev pub add_headers : HttpRequest → List (List ℕ × List ℕ) → HttpRequest
add_headers r [] = r
add_headers r ((field, value) ∷ hs) = add_headers (add_header r field value) hs

-- One line off the front of the input.
pub line_off :
    (line rest : List ℕ)
    → NoCr line
    → (search_crlf (line ++ (cr ∷ lf ∷ rest)) ≡ some (length line))
      × (take (length line) (line ++ (cr ∷ lf ∷ rest)) ≡ line)
      × (drop (length line + 2) (line ++ (cr ∷ lf ∷ rest)) ≡ rest)
line_off line rest h = (
  search_crlf-line line rest h,
  take-append (length line) line (cr ∷ lf ∷ rest) refl,
  drop-append_more (length line) 2 line (cr ∷ lf ∷ rest) refl,
)

pub headers_step-field :
    (again : List ℕ → HttpContext → Parse (List ℕ)) (xs field after : List ℕ) (i : ℕ)
    (c : HttpContext)
    → search_crlf xs ≡ some i
    → split_at b':' (take i xs) ≡ some (field, after)
    → headers_step again xs c
      ≡ again (drop (i + 2) xs) (record c { request = add_header c.request field after })
unfolding headers_step
headers_step-field again xs field after i c found colon = rw (found, colon, headers_step) refl

pub request_line_step-good :
    (again : List ℕ → HttpContext → Parse (List ℕ)) (xs : List ℕ) (i : ℕ) (c c' : HttpContext)
    (time : ℕ)
    → search_crlf xs ≡ some i
    → take_request_line (take i xs) c time ≡ some (true, c')
    → request_line_step again xs c time ≡ again (drop (i + 2) xs) c'
unfolding request_line_step
request_line_step-good again xs i c c' time found good = rw (found, good, request_line_step) refl

pub parse_bytes-header_lines :
    (rounds : ℕ) (hs : List (List ℕ × List ℕ)) (rest : List ℕ) (r : HttpRequest) (time : ℕ)
    → AreHeaders hs
    → length hs < rounds
    → parse_bytes rounds
        (header_lines hs rest)
        (record { state = expect_headers; request = r })
        time
      ≡ done true (record { state = got_all; request = add_headers r hs }) rest
unfolding parse_bytes parse_step
parse_bytes-header_lines zero hs rest r time ok enough = absurd (omega arith)
parse_bytes-header_lines (suc rounds) [] rest r time ok enough =
    unfold headers_step search_crlf split_at receive_headers in refl
parse_bytes-header_lines (suc rounds) ((field, value) ∷ hs) rest r time (colon, f, v, ok) enough =
    headers_step-field (λ xs c. parse_bytes rounds xs c time) (line ++ (cr ∷ lf ∷ after)) field
      value (length line) c found (ap (split_at b':') whole ∙ split_at-first b':' field value colon)
    ∙ ap (λ xs. parse_bytes rounds xs c' time) left
    ∙ parse_bytes-header_lines rounds hs rest (add_header r field value) time ok (omega arith)
  where
    line : List ℕ
    line = field ++ (b':' ∷ value)

    after : List ℕ
    after = header_lines hs rest

    c : HttpContext
    c = record { state = expect_headers; request = r }

    c' : HttpContext
    c' = record { state = expect_headers; request = add_header r field value }

    clean : NoCr line
    clean = NoCr-append field (b':' ∷ value) f (omega arith, v)

    found : search_crlf (line ++ (cr ∷ lf ∷ after)) ≡ some (length line)
    found = search_crlf-line line after clean

    whole : take (length line) (line ++ (cr ∷ lf ∷ after)) ≡ line
    whole = take-append (length line) line (cr ∷ lf ∷ after) refl

    left : drop (length line + 2) (line ++ (cr ∷ lf ∷ after)) ≡ after
    left = drop-append_more (length line) 2 line (cr ∷ lf ∷ after) refl

pub process_version-string :
    (r : HttpRequest) (v : Version)
    → v ≢ Version.unknown
    → process_version r (version_string v) ≡ (true, record r { version = v })
unfolding process_version bytes_eq compare_bytes
process_version-string r Version.unknown h = absurd (h refl)
process_version-string r http10 h = refl
process_version-string r http11 h = refl

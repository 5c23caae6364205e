-- ===== src/Http/Parser/Refine.antt =====
-- `parseRequest` on a buffer computes the parse of the bytes in it.
use muduo_pro.Common.{
  ℕ, zero, suc, ◌+◌, ◌≡◌, refl, inl, inr, Bool, List, arith, take, drop, Option-cases, Bool-cases,
}
use muduo_pro.Buffer.{Buffer}
use muduo_pro.Buffer.Shape.{Holds}
use muduo_pro.Buffer.Content.{retrieve_until_lem, slice-Holds}
use muduo_pro.Buffer.Search.{search_crlf, find_crlf_search, search_crlf-room}
use muduo_pro.Http.Request.{
  HttpContext, ParseState, expect_request_line, expect_headers, expect_body, got_all,
  receive_headers,
}
use muduo_pro.Http.Parser.{
  Parse, done, fault, unfinished, split_at, process_request_line, line_to, request_line_round,
  headers_round, parse_round, parse_request,
}
use muduo_pro.Http.Parser.Bytes.{
  take_request_line, request_line_step, headers_step, parse_step, parse_bytes,
}

-- The same outcome, the buffer that is left holding the bytes that are left.
abbrev pub Agrees : Parse Buffer → Parse (List ℕ) → Type 0
Agrees (done r c b) (done r' c' xs) = (r ≡ r') × (c ≡ c') × Holds b xs
Agrees fault fault = Unit
Agrees unfinished unfinished = Unit
Agrees _ _ = ⊥

module _ (again : Buffer → HttpContext → Parse Buffer)
    (again' : List ℕ → HttpContext → Parse (List ℕ))
    (ih : (b : Buffer) (xs : List ℕ) (c : HttpContext)
      → Holds b xs
      → Agrees (again b c) (again' xs c))
    (b : Buffer) (xs : List ℕ) (c : HttpContext) (h : Holds b xs) where
  request_line_round-Agrees :
      (time : ℕ) → Agrees (request_line_round again b c time) (request_line_step again' xs c time)
  unfolding request_line_round request_line_step take_request_line
  request_line_round-Agrees time = elim (Option-cases (search_crlf xs)) [
    | inl n ↦ rw (find_crlf_search h, n, request_line_round, request_line_step) (refl, refl, h)
    | inr (i, found) ↦
        let room = search_crlf-room xs i found in
        let line : line_to b (b.reader_index + i) ≡ take i xs =
          slice-Holds i h (omega (arith, room)) in
        let (b', e, h') =
          retrieve_until_lem (i + 2) (b.reader_index + i + 2) h room (omega arith) in
        rw (find_crlf_search h, found, line, request_line_round, request_line_step)
          (elim (Option-cases (process_request_line (take i xs) c)) [
            | inl n ↦ rw (n, take_request_line) tt
            | inr ((good, c'), r) ↦ elim (Bool-cases good) [
              | inl t ↦ rw (r, t, e, take_request_line) (ih b' (drop (i + 2) xs) _ h')
              | inr t ↦ rw (r, t, take_request_line) (refl, refl, h)
            ]
          ])
  ]

  headers_round-Agrees : Agrees (headers_round again b c) (headers_step again' xs c)
  unfolding headers_round headers_step receive_headers
  headers_round-Agrees = elim (Option-cases (search_crlf xs)) [
    | inl n ↦ rw (find_crlf_search h, n, headers_round, headers_step) (refl, refl, h)
    | inr (i, found) ↦
        let room = search_crlf-room xs i found in
        let line : line_to b (b.reader_index + i) ≡ take i xs =
          slice-Holds i h (omega (arith, room)) in
        let (b', e, h') =
          retrieve_until_lem (i + 2) (b.reader_index + i + 2) h room (omega arith) in
        rw (find_crlf_search h, found, line, headers_round, headers_step)
          (elim (Option-cases (split_at b':' (take i xs))) [
            | inl n ↦ rw (n, e) (refl, refl, h')
            | inr (_, r) ↦ rw (r, e) (ih b' (drop (i + 2) xs) _ h')
          ])
  ]

  parse_round-Agrees :
      (s : ParseState) (time : ℕ)
      → Agrees (parse_round s again b c time) (parse_step s again' xs c time)
  unfolding parse_round parse_step
  parse_round-Agrees expect_request_line time = request_line_round-Agrees time
  parse_round-Agrees expect_headers time = headers_round-Agrees
  parse_round-Agrees expect_body time = ih b xs c h
  parse_round-Agrees got_all time = ih b xs c h

-- Over any number of rounds `parseRequest` on a valid buffer ends as the parse of its content does,
-- with the same result and context, and with a valid buffer that holds the bytes left over.
pub parse_request_refines :
    (rounds : ℕ) {b : Buffer} {xs : List ℕ} (c : HttpContext) (time : ℕ)
    → Holds b xs
    → Agrees (parse_request rounds b c time) (parse_bytes rounds xs c time)
unfolding parse_request parse_bytes
parse_request_refines zero c time h = tt
parse_request_refines (suc rounds) {b} {xs} c time h =
    parse_round-Agrees (λ b' c'. parse_request rounds b' c' time)
      (λ xs' c'. parse_bytes rounds xs' c' time)
      (λ b' xs' c' h'. parse_request_refines rounds c' time h') b xs c h c.state time

pub done_of_Agrees :
    (p : Parse Buffer) (r : Bool) (c : HttpContext) (xs : List ℕ)
    → Agrees p (done r c xs)
    → (b : Buffer) × (p ≡ done r c b) × Holds b xs
done_of_Agrees (done r' c' b) r c xs a = (b, rw (a.0, a.1) refl, a.2)
done_of_Agrees fault r c xs a = absurd a
done_of_Agrees unfinished r c xs a = absurd a

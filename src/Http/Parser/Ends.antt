-- ===== src/Http/Parser/Ends.antt =====
-- The parse of a context that is ready ends, within as many rounds as there are bytes and one more.
use muduo_pro.Common.{
  ℕ, zero, suc, ◌+◌, ◌<◌, ◌≡◌, ◌≢◌, refl, subst, ◌∙◌, ap, inl, inr, Bool, true, false, none, some,
  List, arith, take, drop, length, Option-cases, Bool-cases, length-drop,
}
use muduo_pro.Buffer.Search.{search_crlf, search_crlf-room}
use muduo_pro.Http.Request.{
  HttpContext, HttpRequest, invalid, ParseState, expect_request_line, expect_headers, expect_body,
  got_all, add_header, receive_request_line, receive_headers, set_method,
}
use muduo_pro.Http.Parser.{Parse, done, split_at, process_request_line}
use muduo_pro.Buffer.{Buffer}
use muduo_pro.Buffer.Shape.{IsValid, Holds}
use muduo_pro.Http.Parser.{parse_request}
use muduo_pro.Http.Parser.Refine.{Agrees, parse_request_refines, done_of_Agrees}
use muduo_pro.Http.Parser.Bytes.{
  take_request_line, request_line_step, headers_step, parse_step, parse_bytes,
}

-- A request may be parsed from here: no method is set before the request line.
abbrev pub ReadyIn : ParseState → HttpRequest → Type 0
ReadyIn expect_request_line r = r.method ≡ invalid
ReadyIn expect_headers r = Unit
ReadyIn expect_body r = ⊥
ReadyIn got_all r = ⊥

abbrev pub Ready : HttpContext → Type 0
Ready c = ReadyIn c.state c.request

pub take_request_line-ne-none :
    (line : List ℕ) (c : HttpContext) (time : ℕ)
    → c.request.method ≡ invalid
    → take_request_line line c time ≢ none
unfolding take_request_line process_request_line set_method
take_request_line-ne-none line c time h = ground arith

pub take_request_line-state :
    (line : List ℕ) (c c' : HttpContext) (time : ℕ)
    → take_request_line line c time ≡ some (true, c')
    → c'.state ≡ expect_headers
unfolding take_request_line receive_request_line
take_request_line-state line c c' time e = ground arith

-- What a call may leave for the next one: a state to go on from, or a whole request.
abbrev pub OpenIn : ParseState → HttpRequest → Type 0
OpenIn expect_request_line r = r.method ≡ invalid
OpenIn expect_headers r = Unit
OpenIn expect_body r = ⊥
OpenIn got_all r = Unit

-- The parse ends, and if it found no error, the context is one to go on with.
abbrev pub Settles : Parse (List ℕ) → Type 0
Settles p =
    (r : Bool) × (c : HttpContext) × (rest : List ℕ) × (p ≡ done r c rest)
    × (r ≡ true → OpenIn c.state c.request)

module _ (again : List ℕ → HttpContext → Parse (List ℕ)) (xs : List ℕ) (c : HttpContext)
    (ih : (xs' : List ℕ) (c' : HttpContext)
      → length xs' < length xs
      → Ready c'
      → Settles (again xs' c')) where
  shorter : (i : ℕ) → search_crlf xs ≡ some i → length (drop (i + 2) xs) < length xs
  shorter i found = omega (arith, search_crlf-room xs i found, length-drop (i + 2) xs)

  request_line_step-Settles :
      (time : ℕ)
      → c.state ≡ expect_request_line
      → c.request.method ≡ invalid
      → Settles (request_line_step again xs c time)
  unfolding request_line_step
  request_line_step-Settles time e h = elim (Option-cases (search_crlf xs)) [
    | inl n ↦ (true, c, xs, rw (n, request_line_step) refl, λ _. rw e h)
    | inr (i, found) ↦ elim (Option-cases (take_request_line (take i xs) c time)) [
      | inl n ↦ absurd (take_request_line-ne-none (take i xs) c time h n)
      | inr ((good, c'), r) ↦ elim (Bool-cases good) [
        | inl t ↦
            let ready : Ready c' =
              rw (take_request_line-state (take i xs) c c' time (r ∙ ap (λ g. some (g, c')) t))
                tt in
            rw (found, r, t, request_line_step) (ih (drop (i + 2) xs) c' (shorter i found) ready)
        | inr t ↦ (false, c', xs, rw (found, r, t, request_line_step) refl, λ f. cc)
      ]
    ]
  ]

  headers_step-Settles : c.state ≡ expect_headers → Settles (headers_step again xs c)
  unfolding headers_step receive_headers
  headers_step-Settles e = elim (Option-cases (search_crlf xs)) [
    | inl n ↦ (true, c, xs, rw (n, headers_step) refl, λ _. rw e tt)
    | inr (i, found) ↦ elim (Option-cases (split_at b':' (take i xs))) [
      | inl n ↦
          (true, receive_headers c, drop (i + 2) xs, rw (found, n, headers_step) refl, λ _. tt)
      | inr ((field, after), r) ↦
          let ready : ReadyIn c.state (add_header c.request field after) = rw e tt in
          rw (found, r, headers_step)
            (ih (drop (i + 2) xs) (record c { request = add_header c.request field after })
              (shorter i found) ready)
    ]
  ]

  parse_step-Settles :
      (s : ParseState) (time : ℕ)
      → c.state ≡ s
      → ReadyIn s c.request
      → Settles (parse_step s again xs c time)
  unfolding parse_step
  parse_step-Settles expect_request_line time e h = request_line_step-Settles time e h
  parse_step-Settles expect_headers time e h = headers_step-Settles e
  parse_step-Settles expect_body time e h = absurd h
  parse_step-Settles got_all time e h = absurd h

pub parse_bytes-Settles :
    (rounds : ℕ) (xs : List ℕ) (c : HttpContext) (time : ℕ)
    → length xs < rounds
    → Ready c
    → Settles (parse_bytes rounds xs c time)
unfolding parse_bytes
parse_bytes-Settles zero xs c time h ready = absurd (omega arith)
parse_bytes-Settles (suc rounds) xs c time h ready =
    parse_step-Settles (λ xs' c'. parse_bytes rounds xs' c' time) xs c
      (λ xs' c' lt ready'. parse_bytes-Settles rounds xs' c' time (omega arith) ready') c.state time
      refl ready

-- From a context that is ready, `parseRequest` on a valid buffer returns within one round more than
-- there are bytes to read: no assert fails, the buffer stays valid, and if no error is found the
-- context is ready for the next message or holds a whole request.
pub parse_request_returns :
    (rounds : ℕ) {b : Buffer} {xs : List ℕ} (c : HttpContext) (time : ℕ)
    → Holds b xs
    → Ready c
    → length xs < rounds
    → (r : Bool) × (c' : HttpContext) × (b' : Buffer) × (parse_request rounds b c time
        ≡ done r c' b')
      × (r ≡ true → OpenIn c'.state c'.request)
      × IsValid b'
parse_request_returns rounds {b} {xs} c time h ready enough =
    let (r, c', rest, e, open_after) = parse_bytes-Settles rounds xs c time enough ready in
    let (b', e', h') =
      done_of_Agrees (parse_request rounds b c time) r c' rest (
        subst (Agrees (parse_request rounds b c time)) e (parse_request_refines rounds c time h)) in
    (r, c', b', e', open_after, h'.0)

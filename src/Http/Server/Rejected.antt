-- ===== src/Http/Server/Rejected.antt =====
-- What a connection does after a request that was rejected.
use muduo_pro.Common.{
  ℕ, zero, suc, ◌+◌, ◌≡◌, refl, sym, subst, ap, ◌∙◌, inl, inr, false, none, some, List, ◌++◌, arith,
  take, take-append_le, drop, Option-cases, Bool-cases,
}
use muduo_pro.Buffer.{Buffer}
use muduo_pro.Buffer.Shape.{Holds, content}
use muduo_pro.Buffer.Search.{search_crlf, search_crlf-append, search_crlf-room}
use muduo_pro.Http.Request.{
  HttpContext, invalid, is_invalid, ParseState, expect_request_line, expect_headers, expect_body,
  got_all, set_method, add_header,
}
use muduo_pro.Http.Parser.{
  Parse, done, fault, unfinished, split_at, process_request_line, parse_request,
}
use muduo_pro.Http.Parser.Bytes.{
  take_request_line, request_line_step, headers_step, parse_step, parse_bytes,
}
use muduo_pro.Http.Parser.Refine.{Agrees, parse_request_refines}
use muduo_pro.Http.Parser.Ends.{ReadyIn, Ready, take_request_line-state}

-- The line in front has a first word, and the context expects it with a method set already.
abbrev Stale : HttpContext → List ℕ → Type 0
Stale c xs =
    (c.state ≡ expect_request_line)
    × (i : ℕ) × (search_crlf xs ≡ some i)
    × (m : List ℕ) × (rest : List ℕ) × (split_at b' ' (take i xs) ≡ some (m, rest))

take_request_line-bad :
    (line : List ℕ) (c c' : HttpContext) (time : ℕ)
    → c.request.method ≡ invalid
    → take_request_line line c time ≡ some (false, c')
    → is_invalid c'.request.method ≡ false
    → (c'.state ≡ c.state) × (m : List ℕ) × (rest : List ℕ) × (split_at b' ' line ≡ some (m, rest))
unfolding take_request_line process_request_line
take_request_line-bad line c c' time ready e known = elim (Option-cases (split_at b' ' line)) [
  | inl n ↦ absurd (ground arith)
  | inr ((m, rest), s) ↦ (ground arith, m, rest, s)
]

take_request_line-stale :
    (line m rest : List ℕ) (c : HttpContext) (time : ℕ)
    → split_at b' ' line ≡ some (m, rest)
    → is_invalid c.request.method ≡ false
    → take_request_line line c time ≡ none
unfolding take_request_line process_request_line set_method
take_request_line-stale line m rest c time split known = ground arith

module _ (again : List ℕ → HttpContext → Parse (List ℕ)) (xs : List ℕ) (c c' : HttpContext)
    (xs' : List ℕ) (known : is_invalid c'.request.method ≡ false)
    (ih : (zs : List ℕ) (d : HttpContext)
      → Ready d
      → again zs d ≡ done false c' xs'
      → Stale c' xs') where
  request_line_step-Stale :
      (time : ℕ)
      → c.state ≡ expect_request_line
      → c.request.method ≡ invalid
      → request_line_step again xs c time ≡ done false c' xs'
      → Stale c' xs'
  unfolding request_line_step
  request_line_step-Stale time s ready e = elim (Option-cases (search_crlf xs)) [
    | inl n ↦ absurd (ground arith)
    | inr (i, found) ↦ elim (Option-cases (take_request_line (take i xs) c time)) [
      | inl n ↦ absurd (ground arith)
      | inr ((good, d), r) ↦ elim (Bool-cases good) [
        | inl t ↦
            ih (drop (i + 2) xs) d
              (rw (take_request_line-state (take i xs) c d time (r ∙ ap (λ g. some (g, d)) t)) tt)
              (ground arith)
        | inr t ↦
            let same : (d ≡ c') × (xs ≡ xs') = ground arith in
            let (state, m, rest, split) =
              take_request_line-bad (take i xs) c d time ready (r ∙ ap (λ g. some (g, d)) t)
                (rw same.0 known) in
            (
              ap (λ (k : HttpContext). k.state) (sym same.0) ∙ state ∙ s,
              i,
              rw (← same.1) found,
              m,
              rest,
              rw (← same.1) split,
            )
      ]
    ]
  ]

  headers_step-Stale :
      c.state ≡ expect_headers → headers_step again xs c ≡ done false c' xs' → Stale c' xs'
  unfolding headers_step
  headers_step-Stale s e = elim (Option-cases (search_crlf xs)) [
    | inl n ↦ absurd (ground arith)
    | inr (i, found) ↦ elim (Option-cases (split_at b':' (take i xs))) [
      | inl n ↦ absurd (ground arith)
      | inr ((field, after), r) ↦
          let ready : ReadyIn c.state (add_header c.request field after) = rw s tt in
          ih (drop (i + 2) xs) (record c { request = add_header c.request field after }) ready
            (ground arith)
    ]
  ]

  parse_step-Stale :
      (s : ParseState) (time : ℕ)
      → c.state ≡ s
      → ReadyIn s c.request
      → parse_step s again xs c time ≡ done false c' xs'
      → Stale c' xs'
  unfolding parse_step
  parse_step-Stale expect_request_line time s h e = request_line_step-Stale time s h e
  parse_step-Stale expect_headers time s h e = headers_step-Stale s e
  parse_step-Stale expect_body time s h e = absurd h
  parse_step-Stale got_all time s h e = absurd h

parse_bytes-Stale :
    (rounds : ℕ) (xs xs' : List ℕ) (c c' : HttpContext) (time : ℕ)
    → Ready c
    → is_invalid c'.request.method ≡ false
    → parse_bytes rounds xs c time ≡ done false c' xs'
    → Stale c' xs'
unfolding parse_bytes
parse_bytes-Stale zero xs xs' c c' time ready known e = absurd (ground arith)
parse_bytes-Stale (suc rounds) xs xs' c c' time ready known e =
    parse_step-Stale (λ zs d. parse_bytes rounds zs d time) xs c c' xs' known
      (λ zs d r e'. parse_bytes-Stale rounds zs xs' d c' time r known e') c.state time refl ready e

request_line_step-fault :
    (again : List ℕ → HttpContext → Parse (List ℕ)) (xs : List ℕ) (c : HttpContext) (time : ℕ)
    → Stale c xs
    → is_invalid c.request.method ≡ false
    → request_line_step again xs c time ≡ fault
unfolding request_line_step
request_line_step-fault again xs c time (state, i, found, m, rest, split) known =
    rw (found, take_request_line-stale (take i xs) m rest c time split known, request_line_step)
      refl

Stale-fault :
    (rounds : ℕ) (xs : List ℕ) (c : HttpContext) (time : ℕ)
    → Stale c xs
    → is_invalid c.request.method ≡ false
    → parse_bytes (suc rounds) xs c time ≡ fault
unfolding parse_bytes parse_step
Stale-fault rounds xs c time stale known =
    subst (λ s. parse_step s (λ zs d. parse_bytes rounds zs d time) xs c time ≡ fault) (sym stale.0)
      (request_line_step-fault (λ zs d. parse_bytes rounds zs d time) xs c time stale known)

fault_of_Agrees : (p : Parse Buffer) → Agrees p fault → p ≡ fault
fault_of_Agrees (done r c b) a = absurd a
fault_of_Agrees fault a = refl
fault_of_Agrees unfinished a = absurd a

Stale-append : (c : HttpContext) (xs ys : List ℕ) → Stale c xs → Stale c (xs ++ ys)
Stale-append c xs ys (state, i, found, m, rest, split) = (
  state,
  i,
  search_crlf-append xs ys i found,
  m,
  rest,
  ap (split_at b' ') (take-append_le i xs ys (omega (arith, search_crlf-room xs i found))) ∙ split,
)

-- A request that is rejected after its method was recognised stays in the buffer with the method in
-- the context, so the next call of `parseRequest`, whatever bytes have come behind it, fails the
-- assert of `setMethod`.
pub parse_request_rejected_twice :
    (rounds more : ℕ) {b b' b'' : Buffer} {xs : List ℕ} (ys : List ℕ) (c c' : HttpContext)
    (time later : ℕ)
    → Holds b xs
    → Ready c
    → parse_request rounds b c time ≡ done false c' b'
    → is_invalid c'.request.method ≡ false
    → Holds b'' (content b' ++ ys)
    → parse_request (suc more) b'' c' later ≡ fault
parse_request_rejected_twice rounds more {b} {b'} {b''} {xs} ys c c' time later h ready e known
      h'' =
    go (parse_bytes rounds xs c time) refl (
      subst (λ p. Agrees p (parse_bytes rounds xs c time)) e
        (parse_request_refines rounds c time h))
  where
    go :
        (p : Parse (List ℕ))
        → parse_bytes rounds xs c time ≡ p
        → Agrees (done false c' b') p
        → parse_request (suc more) b'' c' later ≡ fault
    go (done r d zs) e' a =
        let stale : Stale c' zs =
          parse_bytes-Stale rounds xs zs c c' time ready known (e' ∙ rw (a.0, a.1) refl) in
        let stale' : Stale c' (content b' ++ ys) =
          Stale-append c' (content b') ys (subst (Stale c') (sym a.2.1) stale) in
        fault_of_Agrees (parse_request (suc more) b'' c' later) (
          subst (Agrees (parse_request (suc more) b'' c' later))
            (Stale-fault more (content b' ++ ys) c' later stale' known)
            (parse_request_refines (suc more) c' later h''))
    go fault e' a = absurd a
    go unfinished e' a = absurd a

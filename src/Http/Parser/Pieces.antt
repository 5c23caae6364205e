-- ===== src/Http/Parser/Pieces.antt =====
-- The parse does not depend on how the bytes are cut into messages.
use muduo_pro.Common.{
  ℕ, zero, suc, ◌+◌, ◌≤◌, ◌<◌, ◌≡◌, refl, sym, subst, ◌∙◌, ap, inl, inr, true, false, not, ◌&&◌,
  some, List, ◌++◌, arith, take, drop, length, Option-cases, Bool-cases, if◌then◌else◌, length-drop,
  length-append, take-append_le, drop-append_le,
}
use muduo_pro.Buffer.Search.{search_crlf, search_crlf-room, search_crlf-append}
use muduo_pro.Http.Request.{
  HttpContext, ParseState, expect_request_line, expect_headers, expect_body, got_all, add_header,
  receive_headers, is_got_all,
}
use muduo_pro.Buffer.{Buffer, append}
use muduo_pro.Buffer.Shape.{max_size, content, Holds}
use muduo_pro.Buffer.Content.{append_lem}
use muduo_pro.Http.Parser.{Parse, done, fault, unfinished, split_at, parse_request}
use muduo_pro.Http.Parser.Refine.{Agrees, parse_request_refines}
use muduo_pro.Http.Parser.Bytes.{
  take_request_line, request_line_step, headers_step, parse_step, parse_bytes,
}
use muduo_pro.Http.Parser.Ends.{ReadyIn, Ready, take_request_line-state, parse_bytes-Settles}

module _ (again again' : List ℕ → HttpContext → Parse (List ℕ)) (xs : List ℕ) (c : HttpContext)
    (ih : (xs' : List ℕ) (c' : HttpContext)
      → length xs' < length xs
      → Ready c'
      → again xs' c' ≡ again' xs' c') where
  request_line_step-same :
      (time : ℕ) → request_line_step again xs c time ≡ request_line_step again' xs c time
  unfolding request_line_step
  request_line_step-same time = elim (Option-cases (search_crlf xs)) [
    | inl n ↦ rw (n, request_line_step) refl
    | inr (i, found) ↦ elim (Option-cases (take_request_line (take i xs) c time)) [
      | inl n ↦ rw (found, n, request_line_step) refl
      | inr ((good, c'), r) ↦ elim (Bool-cases good) [
        | inl t ↦
            let ready : Ready c' =
              rw (take_request_line-state (take i xs) c c' time (r ∙ ap (λ g. some (g, c')) t))
                tt in
            rw (found, r, t, request_line_step)
              (ih (drop (i + 2) xs) c'
                (omega (arith, search_crlf-room xs i found, length-drop (i + 2) xs)) ready)
        | inr t ↦ rw (found, r, t, request_line_step) refl
      ]
    ]
  ]

  headers_step-same : c.state ≡ expect_headers → headers_step again xs c ≡ headers_step again' xs c
  unfolding headers_step
  headers_step-same e = elim (Option-cases (search_crlf xs)) [
    | inl n ↦ rw (n, headers_step) refl
    | inr (i, found) ↦ elim (Option-cases (split_at b':' (take i xs))) [
      | inl n ↦ rw (found, n, headers_step) refl
      | inr ((field, after), r) ↦
          let ready : ReadyIn c.state (add_header c.request field after) = rw e tt in
          rw (found, r, headers_step)
            (ih (drop (i + 2) xs) (record c { request = add_header c.request field after })
              (omega (arith, search_crlf-room xs i found, length-drop (i + 2) xs)) ready)
    ]
  ]

  parse_step-same :
      (s : ParseState) (time : ℕ)
      → c.state ≡ s
      → ReadyIn s c.request
      → parse_step s again xs c time ≡ parse_step s again' xs c time
  unfolding parse_step
  parse_step-same expect_request_line time e h = request_line_step-same time
  parse_step-same expect_headers time e h = headers_step-same e
  parse_step-same expect_body time e h = absurd h
  parse_step-same got_all time e h = absurd h

-- More rounds than are needed change nothing.
parse_bytes-rounds :
    (f g : ℕ) (xs : List ℕ) (c : HttpContext) (time : ℕ)
    → length xs < f
    → length xs < g
    → Ready c
    → parse_bytes f xs c time ≡ parse_bytes g xs c time
unfolding parse_bytes
parse_bytes-rounds zero g xs c time hf hg ready = absurd (omega arith)
parse_bytes-rounds (suc f) zero xs c time hf hg ready = absurd (omega arith)
parse_bytes-rounds (suc f) (suc g) xs c time hf hg ready =
    parse_step-same (λ xs' c'. parse_bytes f xs' c' time) (λ xs' c'. parse_bytes g xs' c' time) xs c
      (λ xs' c' lt ready'. parse_bytes-rounds f g xs' c' time (omega arith) (omega arith) ready')
      c.state time refl ready

-- What becomes of a parse when `ys` arrives: it goes on if it had no error and no whole request;
-- else the new bytes stay behind those left over.
pub resume : ℕ → Parse (List ℕ) → List ℕ → ℕ → Parse (List ℕ)
resume rounds (done r c rest) ys time =
    if r && not (is_got_all c.state)
    then parse_bytes rounds (rest ++ ys) c time
    else done r c (rest ++ ys)
resume rounds fault ys time = fault
resume rounds unfinished ys time = unfinished

module _ (again again' : List ℕ → HttpContext → Parse (List ℕ)) (rounds time : ℕ) (xs ys : List ℕ)
    (c : HttpContext)
    (ih : (xs' : List ℕ) (c' : HttpContext)
      → length xs' < length xs
      → Ready c'
      → again (xs' ++ ys) c' ≡ resume rounds (again' xs' c') ys time) where
  longer :
      (i : ℕ)
      → search_crlf xs ≡ some i
      → (drop (i + 2) (xs ++ ys) ≡ drop (i + 2) xs ++ ys)
        × (take i (xs ++ ys) ≡ take i xs)
        × (length (drop (i + 2) xs) < length xs)
  longer i found =
      let room = search_crlf-room xs i found in
      (
        drop-append_le (i + 2) xs ys room,
        take-append_le i xs ys (omega (arith, room)),
        omega (arith, room, length-drop (i + 2) xs),
      )

  request_line_step-resume :
      c.state ≡ expect_request_line
      → request_line_step again (xs ++ ys) c time ≡ parse_bytes rounds (xs ++ ys) c time
      → request_line_step again (xs ++ ys) c time
        ≡ resume rounds (request_line_step again' xs c time) ys time
  unfolding request_line_step resume
  request_line_step-resume e whole = elim (Option-cases (search_crlf xs)) [
    | inl n ↦ whole ∙ rw (n, request_line_step, resume) (rw (e, resume) refl)
    | inr (i, found) ↦
        let (left, line, lt) = longer i found in
        rw (search_crlf-append xs ys i found, found, line, request_line_step)
          (elim (Option-cases (take_request_line (take i xs) c time)) [
            | inl n ↦ rw n refl
            | inr ((good, c'), r) ↦ elim (Bool-cases good) [
              | inl t ↦
                  let ready : Ready c' =
                    rw
                      (take_request_line-state (take i xs) c c' time (r ∙ ap (λ g. some (g, c')) t))
                      tt in
                  rw (r, t, left) (ih (drop (i + 2) xs) c' lt ready)
              | inr t ↦ rw (r, t) refl
            ]
          ])
  ]

  headers_step-resume :
      c.state ≡ expect_headers
      → headers_step again (xs ++ ys) c ≡ parse_bytes rounds (xs ++ ys) c time
      → headers_step again (xs ++ ys) c ≡ resume rounds (headers_step again' xs c) ys time
  unfolding headers_step resume receive_headers
  headers_step-resume e whole = elim (Option-cases (search_crlf xs)) [
    | inl n ↦ whole ∙ rw (n, headers_step, resume) (rw (e, resume) refl)
    | inr (i, found) ↦
        let (left, line, lt) = longer i found in
        rw (search_crlf-append xs ys i found, found, line, headers_step)
          (elim (Option-cases (split_at b':' (take i xs))) [
            | inl n ↦ rw (n, left) refl
            | inr ((field, after), r) ↦
                let ready : ReadyIn c.state (add_header c.request field after) = rw e tt in
                rw (r, left)
                  (ih (drop (i + 2) xs) (record c { request = add_header c.request field after }) lt
                    ready)
          ])
  ]

  parse_step-resume :
      (s : ParseState)
      → c.state ≡ s
      → ReadyIn s c.request
      → parse_step s again (xs ++ ys) c time ≡ parse_bytes rounds (xs ++ ys) c time
      → parse_step s again (xs ++ ys) c time ≡ resume rounds (parse_step s again' xs c time) ys time
  unfolding parse_step
  parse_step-resume expect_request_line e h whole = request_line_step-resume e whole
  parse_step-resume expect_headers e h whole = headers_step-resume e whole
  parse_step-resume expect_body e h whole = absurd h
  parse_step-resume got_all e h whole = absurd h

-- However the bytes are cut in two messages, with any rounds that suffice, the parse of both parts
-- in turn ends like the parse of all the bytes at once, from every context that is ready.
pub parse_bytes-append :
    (f g h : ℕ) (xs ys : List ℕ) (c : HttpContext) (time : ℕ)
    → length xs + length ys < f
    → length xs < g
    → length xs + length ys < h
    → Ready c
    → parse_bytes f (xs ++ ys) c time ≡ resume h (parse_bytes g xs c time) ys time
unfolding parse_bytes
parse_bytes-append zero g h xs ys c time hf hg hh ready = absurd (omega arith)
parse_bytes-append (suc f) zero h xs ys c time hf hg hh ready = absurd (omega arith)
parse_bytes-append (suc f) (suc g) h xs ys c time hf hg hh ready =
    parse_step-resume (λ zs c'. parse_bytes f zs c' time) (λ zs c'. parse_bytes g zs c' time) h time
      xs ys c
      (λ xs' c' lt ready'.
        parse_bytes-append f g h xs' ys c' time (omega arith) (omega arith) (omega arith) ready')
      c.state refl ready
      (parse_bytes-rounds (suc f) h (xs ++ ys) c time (omega (arith, length-append xs ys))
        (omega (arith, length-append xs ys)) ready)

-- The same outcome, with the same bytes left over.
abbrev pub SameOutcome : Parse Buffer → Parse Buffer → Type 0
SameOutcome (done r c b) (done r' c' b') = (r ≡ r') × (c ≡ c') × (content b ≡ content b')
SameOutcome fault fault = Unit
SameOutcome unfinished unfinished = Unit
SameOutcome _ _ = ⊥

Agrees-SameOutcome :
    (p q : Parse Buffer) (s : Parse (List ℕ)) → Agrees p s → Agrees q s → SameOutcome p q
Agrees-SameOutcome (done r c b) (done r' c' b') (done r'' c'' xs) a a' =
    (a.0 ∙ sym a'.0, a.1 ∙ sym a'.1, a.2.1 ∙ sym a'.2.1)
Agrees-SameOutcome fault fault fault a a' = tt
Agrees-SameOutcome unfinished unfinished unfinished a a' = tt
Agrees-SameOutcome (done r c b) q fault a a' = absurd a
Agrees-SameOutcome (done r c b) q unfinished a a' = absurd a
Agrees-SameOutcome (done r c b) fault (done r'' c'' xs) a a' = absurd a'
Agrees-SameOutcome (done r c b) unfinished (done r'' c'' xs) a a' = absurd a'
Agrees-SameOutcome fault q (done r c xs) a a' = absurd a
Agrees-SameOutcome fault q unfinished a a' = absurd a
Agrees-SameOutcome fault (done r c b) fault a a' = absurd a'
Agrees-SameOutcome fault unfinished fault a a' = absurd a'
Agrees-SameOutcome unfinished q (done r c xs) a a' = absurd a
Agrees-SameOutcome unfinished q fault a a' = absurd a
Agrees-SameOutcome unfinished (done r c b) unfinished a a' = absurd a'
Agrees-SameOutcome unfinished fault unfinished a a' = absurd a'

-- A parse of a first part that finds no error and no whole request, followed by the arrival of the
-- other part and a second parse, ends like one parse of all the bytes: the same result, the same
-- context and the same bytes left over. The times of arrival are taken to be equal, the rounds to
-- suffice, and the vector to have room for the second part.
pub parse_request_pieces :
    (f g h : ℕ) {b b₁ b₂ : Buffer} {xs : List ℕ} (ys : List ℕ) (c c' : HttpContext) (time : ℕ)
    → Holds b (xs ++ ys)
    → Holds b₁ xs
    → Ready c
    → length xs + length ys < f
    → length xs < g
    → length xs + length ys < h
    → parse_request g b₁ c time ≡ done true c' b₂
    → is_got_all c'.state ≡ false
    → length b₂.buffer + length ys ≤ max_size
    → (b₃ : Buffer) × (append b₂ ys ≡ some b₃)
      × SameOutcome (parse_request f b c time) (parse_request h b₃ c' time)
unfolding resume
parse_request_pieces f g h {b} {b₁} {b₂} {xs} ys c c' time hb hb₁ ready hf hg hh first more room =
    let (r, c'', rest, e, _) = parse_bytes-Settles g xs c time hg ready in
    let left : Agrees (done true c' b₂) (done r c'' rest) = subst (Agrees (done true c' b₂)) e (
      subst (λ p. Agrees p (parse_bytes g xs c time)) first (parse_request_refines g c time hb₁)) in
    let (b₃, appended, h₃) = append_lem ys left.2 room in
    let whole : parse_bytes f (xs ++ ys) c time ≡ parse_bytes h (rest ++ ys) c' time =
      parse_bytes-append f g h xs ys c time hf hg hh ready
      ∙ rw (e, ← left.0, ← left.1, more, resume) refl in
    (
      b₃,
      appended,
      Agrees-SameOutcome _ _ (parse_bytes h (rest ++ ys) c' time)
          (subst (Agrees (parse_request f b c time)) whole (parse_request_refines f c time hb))
          (parse_request_refines h c' time h₃),
    )

-- ===== src/Http/Server/Replies.antt =====
-- What a client sees of the server: the reply to a request, and a context that is ready again.
use muduo_pro.Common.{
  ℕ, ◌+◌, ◌^◌, ◌≤◌, ◌<◌, ◌≡◌, ◌≢◌, refl, ap, ◌∙◌, ◌⊎◌, inl, inr, false, some, List, [], ◌∷◌, ◌++◌,
  arith, length, take_all, decimal, if◌then◌else◌, Bool-cases,
}
use muduo_pro.Buffer.{Buffer, new, retrieve_as_string, retrieve_all_as_string}
use muduo_pro.Buffer.Shape.{Holds, IsValid, Holds-Shape, Shape-Holds, Shape-readable}
use muduo_pro.Buffer.Content.{new-Shape, retrieve_as_string_lem}
use muduo_pro.Buffer.Search.{cr, lf, NoCr}
use muduo_pro.Http.Request.{
  HttpRequest, HttpContext, Method, is_invalid, Version, expect_request_line, expect_headers,
  expect_body, got_all, ParseState, new_context, reset, swap, is_got_all,
}
use muduo_pro.Http.Parser.Ends.{Ready, OpenIn, parse_request_returns}
use muduo_pro.Http.Parser.Text.{request_line, header_lines, AreHeaders, Lacks, add_headers}
use muduo_pro.Http.Parser.RoundTrip.{requested, parse_request-request}
use muduo_pro.Http.Response.{HttpResponse, new_response, response_text, append_to_buffer_lem}
use muduo_pro.Http.Server.{
  Effect, send, shutdown, wants_close, on_request, answer, on_message, bad_request_text,
}

-- A response that `appendToBuffer` can write: at most thirteen digits of body length, and a length of
-- its text that is an int.
abbrev pub Fits : HttpResponse → Type 0
Fits r = (length (decimal (length r.body)) ≤ 13) × (length (response_text r) < 2 ^ 31)

retrieve_all_as_string-Holds :
    {b : Buffer} {xs : List ℕ}
    → Holds b xs
    → (b' : Buffer) × (retrieve_all_as_string b ≡ some (xs, b'))
unfolding retrieve_all_as_string
retrieve_all_as_string-Holds {b} {xs} h =
    let (b', e, _) = retrieve_as_string_lem (length xs) h (omega arith) in
    (
      b',
      ap (retrieve_as_string b) (Shape-readable (Holds-Shape h))
          ∙ e
          ∙ ap (λ ys. some (ys, b')) (take_all (length xs) xs (omega arith)),
    )

module _ (http_callback : HttpRequest → HttpResponse → HttpResponse)
    (callback-Fits : (req : HttpRequest)
      → Fits (http_callback req (new_response (wants_close req)))) where
  -- The user's response to a request.
  abbrev pub response_to : HttpRequest → HttpResponse
  response_to req = http_callback req (new_response (wants_close req))

  -- The reply: the text of the response, and the end of the connection if the response closes it.
  abbrev pub reply : HttpRequest → List Effect
  reply req =
      send (response_text (response_to req))
      ∷ (if (response_to req).close_connection then shutdown ∷ [] else [])

  on_request-reply : (req : HttpRequest) → on_request http_callback req ≡ some (reply req)
  unfolding on_request
  on_request-reply req =
      let fits = callback-Fits req in
      let (buf, e, h) =
        append_to_buffer_lem (response_to req) {b = new} (Shape-Holds new-Shape) fits.0 fits.1
          (unfold new in omega (arith, fits.1)) in
      let (left, e') = retrieve_all_as_string-Holds h in rw (e, e') refl

  answer-Ready :
      (c : HttpContext)
      → OpenIn c.state c.request
      → (effects : List Effect) × (c' : HttpContext) × (answer http_callback c ≡ some (effects, c'))
        × Ready c'
  unfolding answer reset swap
  answer-Ready c o = go c.state refl o
    where
      go :
          (s : ParseState)
          → c.state ≡ s
          → OpenIn s c.request
          → (effects : List Effect) × (c' : HttpContext) × (answer http_callback c
              ≡ some (effects, c'))
            × Ready c'
      go expect_request_line e o = ([], c, ground arith, rw e o)
      go expect_headers e o = ([], c, ground arith, rw e tt)
      go expect_body e o = absurd o
      go got_all e o = (reply c.request, reset c, ground (arith, on_request-reply c.request), refl)

  answer-some :
      (c : HttpContext)
      → (effects : List Effect) × (c' : HttpContext) × (answer http_callback c ≡ some (effects, c'))
  unfolding answer
  answer-some c = elim (Bool-cases (is_got_all c.state)) [
    | inl t ↦ (reply c.request, reset c, rw (t, answer) (rw (on_request-reply c.request) refl))
    | inr t ↦ ([], c, rw (t, answer) refl)
  ]

  -- From a context that is ready `onMessage` returns, with any rounds more than there are bytes, and
  -- the buffer stays valid; unless it answered a bad request, the context is ready again.
  pub on_message-Ready :
      (rounds : ℕ) {b : Buffer} {xs : List ℕ} (c : HttpContext) (time : ℕ)
      → Holds b xs
      → Ready c
      → length xs < rounds
      → (effects : List Effect) × (c' : HttpContext) × (b' : Buffer) × (on_message http_callback
            rounds c b time
          ≡ some (effects, c', b'))
        × IsValid b'
        × (Ready c' ⊎ ((more : List Effect) × (effects ≡ send bad_request_text ∷ shutdown ∷ more)))
  unfolding on_message
  on_message-Ready rounds {b} {xs} c time h ready enough =
      let (r, d, b', e, open_after, valid) = parse_request_returns rounds c time h ready enough in
      elim (Bool-cases r) [
        | inl good ↦
            let (effects, c', e', ready') = answer-Ready d (open_after good) in
            (effects, c', b', rw (e, good, on_message) (rw e' refl), valid, inl ready')
        | inr bad ↦
            let (effects, c', e') = answer-some d in
            (
              send bad_request_text ∷ shutdown ∷ effects,
              c',
              b',
              rw (e, bad, on_message) (rw e' refl),
              valid,
              inr (effects, refl),
            )
      ]

  -- A request that stands at the front of the buffer is answered: `onMessage` sends the text of the
  -- user's response, closes the connection if the response says so, leaves what followed the request
  -- and makes the context ready for it.
  pub on_message-request :
      (rounds : ℕ) {b : Buffer} (m : Method) (path : List ℕ) (v : Version)
      (hs : List (List ℕ × List ℕ)) (rest : List ℕ) (time : ℕ)
      → Holds b (request_line m path v ++ (cr ∷ lf ∷ header_lines hs rest))
      → is_invalid m ≡ false
      → v ≢ Version.unknown
      → Lacks b' ' path
      → NoCr path
      → AreHeaders hs
      → length hs + 1 < rounds
      → (c' : HttpContext) × (b' : Buffer) × (on_message http_callback rounds new_context b time
          ≡ some (reply (add_headers (requested m path v time) hs), c', b'))
        × Ready c'
        × Holds b' rest
  unfolding on_message answer reset swap
  on_message-request rounds {b} m path v hs rest time h known some_version clean clean' ok enough =
      let (b', e, h') =
        parse_request-request rounds m path v hs rest time h known some_version clean clean' ok
          enough in
      (
        reset (record { state = got_all; request = add_headers (requested m path v time) hs }),
        b',
        rw (e, on_message)
            (rw (on_request-reply (add_headers (requested m path v time) hs), answer) refl),
        refl,
        h',
      )

-- ===== src/Http/Parser/RoundTrip.antt =====
-- A request that is printed is parsed back.
use muduo_pro.Common.{
  ℕ, zero, suc, ◌+◌, ◌<◌, ◌≡◌, ◌≢◌, refl, subst, ◌∙◌, ap, Bool, true, false, some, List, [], ◌∷◌,
  ◌++◌, arith, length, take-append, drop-append_more,
}
use muduo_pro.Buffer.Search.{cr, lf, search_crlf-line, NoCr}
use muduo_pro.Http.Request.{
  HttpContext, HttpRequest, Method, is_invalid, Version, http10, http11, expect_headers, got_all,
  receive_request_line, set_method, method_string, method_of-method_string, new_context,
  new_request,
}
use muduo_pro.Http.Parser.{done, process_request_line, process_target}
use muduo_pro.Http.Parser.Bytes.{take_request_line, parse_step, parse_bytes}
use muduo_pro.Buffer.{Buffer}
use muduo_pro.Buffer.Shape.{Holds}
use muduo_pro.Http.Parser.{parse_request}
use muduo_pro.Http.Parser.Refine.{Agrees, parse_request_refines, done_of_Agrees}
use muduo_pro.Http.Parser.Text.{
  Lacks, split_at-first, NoCr-append, version_string, request_line, header_lines, AreHeaders,
  add_headers, request_line_step-good, parse_bytes-header_lines, process_version-string,
}

-- The request that a request line gives.
abbrev pub requested : Method → List ℕ → Version → ℕ → HttpRequest
requested m path v time = record {
  method = m;
  version = v;
  path = path;
  receive_time = time;
  headers = [];
}

Lacks-method_string : (m : Method) → Lacks b' ' (method_string m)
unfolding method_string
Lacks-method_string Method.invalid = omega arith
Lacks-method_string Method.get = omega arith
Lacks-method_string Method.post = omega arith
Lacks-method_string Method.head = omega arith
Lacks-method_string Method.put = omega arith
Lacks-method_string Method.delete = omega arith

NoCr-method_string : (m : Method) → NoCr (method_string m)
unfolding method_string
NoCr-method_string Method.invalid = omega arith
NoCr-method_string Method.get = omega arith
NoCr-method_string Method.post = omega arith
NoCr-method_string Method.head = omega arith
NoCr-method_string Method.put = omega arith
NoCr-method_string Method.delete = omega arith

NoCr-version_string : (v : Version) → NoCr (version_string v)
NoCr-version_string Version.unknown = omega arith
NoCr-version_string http10 = omega arith
NoCr-version_string http11 = omega arith

set_method-method_string :
    (m : Method)
    → is_invalid m ≡ false
    → set_method new_request (method_string m) ≡ some (true, record new_request { method = m })
unfolding set_method
set_method-method_string m known = rw (method_of-method_string m known) (rw known refl)

process_target-request_line :
    (r : HttpRequest) (path : List ℕ) (v : Version)
    → v ≢ Version.unknown
    → Lacks b' ' path
    → process_target r (path ++ (b' ' ∷ version_string v))
      ≡ (true, record r { path = path; version = v })
unfolding process_target
process_target-request_line r path v some_version clean =
    rw (split_at-first b' ' path (version_string v) clean, process_target)
      (process_version-string (record r { path = path }) v some_version)

process_request_line-request_line :
    (m : Method) (path : List ℕ) (v : Version)
    → is_invalid m ≡ false
    → v ≢ Version.unknown
    → Lacks b' ' path
    → process_request_line (request_line m path v) new_context
      ≡ some (true, record new_context { request = requested m path v 0 })
unfolding process_request_line
process_request_line-request_line m path v known some_version clean =
    rw
      (
        split_at-first b' ' (method_string m) (path ++ (b' ' ∷ version_string v))
            (Lacks-method_string m),
        set_method-method_string m known,
        process_request_line,
      )
      (ap (λ (p : Bool × HttpRequest). some (p.0, record new_context { request = p.1 }))
        (process_target-request_line (record new_request { method = m }) path v some_version clean))

take_request_line-request_line :
    (m : Method) (path : List ℕ) (v : Version) (time : ℕ)
    → is_invalid m ≡ false
    → v ≢ Version.unknown
    → Lacks b' ' path
    → take_request_line (request_line m path v) new_context time
      ≡ some (true, record { state = expect_headers; request = requested m path v time })
unfolding take_request_line receive_request_line
take_request_line-request_line m path v time known some_version clean =
    rw (process_request_line-request_line m path v known some_version clean, take_request_line) refl

parse_bytes-request :
    (rounds : ℕ) (m : Method) (path : List ℕ) (v : Version) (hs : List (List ℕ × List ℕ))
    (rest : List ℕ) (time : ℕ)
    → is_invalid m ≡ false
    → v ≢ Version.unknown
    → Lacks b' ' path
    → NoCr path
    → AreHeaders hs
    → length hs + 1 < rounds
    → parse_bytes rounds
        (request_line m path v ++ (cr ∷ lf ∷ header_lines hs rest))
        new_context
        time
      ≡ done true
          (record { state = got_all; request = add_headers (requested m path v time) hs })
          rest
unfolding parse_bytes parse_step
parse_bytes-request zero m path v hs rest time known some_version clean clean' ok enough =
    absurd (omega arith)
parse_bytes-request (suc rounds) m path v hs rest time known some_version clean clean' ok enough =
    request_line_step-good (λ xs c. parse_bytes rounds xs c time) (line ++ (cr ∷ lf ∷ after))
      (length line) new_context c' time (search_crlf-line line after pure)
      (ap (λ l. take_request_line l new_context time)
          (take-append (length line) line (cr ∷ lf ∷ after) refl)
        ∙ take_request_line-request_line m path v time known some_version clean)
    ∙ ap (λ xs. parse_bytes rounds xs c' time)
        (drop-append_more (length line) 2 line (cr ∷ lf ∷ after) refl)
    ∙ parse_bytes-header_lines rounds hs rest (requested m path v time) time ok (omega arith)
  where
    line : List ℕ
    line = request_line m path v

    after : List ℕ
    after = header_lines hs rest

    c' : HttpContext
    c' = record { state = expect_headers; request = requested m path v time }

    pure : NoCr line
    pure =
        NoCr-append (method_string m) (b' ' ∷ (path ++ (b' ' ∷ version_string v)))
          (NoCr-method_string m)
          (
            omega arith,
            NoCr-append path (b' ' ∷ version_string v) clean' (omega arith, NoCr-version_string v),
          )

-- A request of a known method, a path without spaces, a version and headers, none with a CR, that
-- stands at the front of a valid buffer is parsed back from its text: the context holds it whole,
-- each header under its field without the spaces around its value, a later one of the same field in
-- place of an earlier, and the buffer holds what followed the request.
pub parse_request-request :
    (rounds : ℕ) {b : Buffer} (m : Method) (path : List ℕ) (v : Version)
    (hs : List (List ℕ × List ℕ)) (rest : List ℕ) (time : ℕ)
    → Holds b (request_line m path v ++ (cr ∷ lf ∷ header_lines hs rest))
    → is_invalid m ≡ false
    → v ≢ Version.unknown
    → Lacks b' ' path
    → NoCr path
    → AreHeaders hs
    → length hs + 1 < rounds
    → (b' : Buffer) × (parse_request rounds b new_context time
        ≡ done true
            (record { state = got_all; request = add_headers (requested m path v time) hs })
            b')
      × Holds b' rest
parse_request-request rounds {b} m path v hs rest time h known some_version clean clean' ok enough =
    done_of_Agrees (parse_request rounds b new_context time) true _ rest (
      subst (Agrees (parse_request rounds b new_context time))
        (parse_bytes-request rounds m path v hs rest time known some_version clean clean' ok enough)
        (parse_request_refines rounds new_context time h))

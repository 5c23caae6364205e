-- ===== src/Http/Response.antt =====
-- muduo/net/http/HttpResponse.h and HttpResponse.cc: a response and its text.
use muduo_pro.Common.{
  ℕ, ◌+◌, ◌≤◌, ◌≡◌, refl, sym, subst, ap, ◌∙◌, Bool, Option, some, List, [], ◌∷◌, ◌++◌,
  append_assoc, append-nil, arith, if◌then◌else◌, ◌>>=◌, ◌>>◌, guard, ltb, lt→ltb, ◌<◌, ◌^◌, length,
  length-append, take, take_all, Bool-cases, inl, inr, codes, decimal, StringMap, assign,
}
use muduo_pro.Buffer.{Buffer, append}
use muduo_pro.Buffer.Shape.{max_size, Holds, Shape, Holds-Shape, Shape-Holds}
use muduo_pro.Buffer.Write.{append-Shape}

pub data StatusCode : Type 0 where
  unknown ok moved_permanently bad_request not_found : StatusCode

abbrev pub code_of : StatusCode → ℕ
code_of unknown = 0
code_of ok = 200
code_of moved_permanently = 301
code_of bad_request = 400
code_of not_found = 404

pub record HttpResponse : Type 0 where
  pub headers : StringMap
  pub status_code : StatusCode
  pub status_message : List ℕ
  pub close_connection : Bool
  pub body : List ℕ

unfoldable pub new_response : Bool → HttpResponse
new_response close = record {
  headers = [];
  status_code = unknown;
  status_message = [];
  close_connection = close;
  body = [];
}

unfoldable pub add_header : HttpResponse → List ℕ → List ℕ → HttpResponse
add_header r key value = record r { headers = assign key value r.headers }

unfoldable pub set_content_type : HttpResponse → List ℕ → HttpResponse
set_content_type r content_type = add_header r (codes "Content-Type") content_type

abbrev pub crlf : List ℕ
crlf = 13 ∷ 10 ∷ []

-- `snprintf` into 32 bytes, the last a NUL.
abbrev pub snprintf32 : List ℕ → List ℕ
snprintf32 = take 31

-- The arguments of the calls of `append` for the headers.
unfoldable pub header_pieces : StringMap → List (List ℕ) → List (List ℕ)
header_pieces [] rest = rest
header_pieces ((key, value) ∷ hs) rest = key ∷ codes ": " ∷ value ∷ crlf ∷ header_pieces hs rest

abbrev pub connection_pieces : HttpResponse → List (List ℕ) → List (List ℕ)
connection_pieces r rest =
    if r.close_connection
    then (codes "Connection: close" ++ crlf) ∷ rest
    else snprintf32 (codes "Content-Length: " ++ (decimal (length r.body) ++ crlf))
      ∷ (codes "Connection: Keep-Alive" ++ crlf)
      ∷ rest

-- The arguments of all calls of `append`, in order.
unfoldable pub pieces : HttpResponse → List (List ℕ)
pieces r =
    snprintf32 (codes "HTTP/1.1 " ++ (decimal (code_of r.status_code) ++ codes " "))
    ∷ r.status_message
    ∷ crlf
    ∷ connection_pieces r (header_pieces r.headers (crlf ∷ r.body ∷ []))

-- Each argument is a StringPiece, whose length is an int: a longer piece is `none`.
unfoldable pub append_each : Buffer → List (List ℕ) → Option Buffer
append_each b [] = some b
append_each b (piece ∷ rest) = do
  guard (ltb (length piece) (2 ^ 31))
  b' ← append b piece
  append_each b' rest

unfoldable pub append_to_buffer : HttpResponse → Buffer → Option Buffer
unfolding append_each
append_to_buffer r output = append_each output (pieces r)

abbrev pub join : List (List ℕ) → List ℕ
join [] = []
join (piece ∷ rest) = piece ++ join rest

append_each-Shape :
    (ps : List (List ℕ)) {b : Buffer} {xs : List ℕ}
    → Shape b xs
    → length (join ps) < 2 ^ 31
    → length b.buffer + length (join ps) ≤ max_size
    → (b' : Buffer) × (append_each b ps ≡ some b') × Shape b' (xs ++ join ps)
unfolding append_each
append_each-Shape [] {b} {xs} s int small = (b, refl, subst (Shape b) (sym (append-nil xs)) s)
append_each-Shape (p ∷ ps) {b} {xs} s int small =
    let split = length-append p (join ps) in
    let (b₁, e₁, s₁, size) = append-Shape p s (omega (arith, small, split)) in
    let (b₂, e₂, s₂) =
      append_each-Shape ps s₁ (omega (arith, int, split)) (omega (arith, small, size, split)) in
    (
      b₂,
      rw (lt→ltb (length p) (2 ^ 31) (omega (arith, int, split)), e₁, e₂) refl,
      subst (Shape b₂) (append_assoc xs p (join ps)) s₂,
    )

-- The header block as text.
abbrev pub header_text : StringMap → List ℕ
header_text [] = []
header_text ((key, value) ∷ hs) = key ++ (codes ": " ++ (value ++ (crlf ++ header_text hs)))

-- A closing response says so, any other gives the length of its body.
abbrev pub connection_text : HttpResponse → List ℕ
connection_text r =
    if r.close_connection
    then codes "Connection: close" ++ crlf
    else codes "Content-Length: "
      ++ (decimal (length r.body) ++ (crlf ++ (codes "Connection: Keep-Alive" ++ crlf)))

-- The text of a response.
abbrev pub response_text : HttpResponse → List ℕ
response_text r =
    codes "HTTP/1.1 "
    ++ (decimal (code_of r.status_code)
        ++ (codes " "
            ++ (r.status_message
                ++ (crlf ++ (connection_text r ++ (header_text r.headers ++ (crlf ++ r.body)))))))

join-header_pieces :
    (hs : StringMap) (rest : List (List ℕ))
    → join (header_pieces hs rest) ≡ header_text hs ++ join rest
unfolding header_pieces
join-header_pieces [] rest = refl
join-header_pieces ((key, value) ∷ hs) rest = simp (join-header_pieces hs rest, append_assoc)

status_line-fits :
    (s : StatusCode)
    → snprintf32 (codes "HTTP/1.1 " ++ (decimal (code_of s) ++ codes " "))
      ≡ codes "HTTP/1.1 " ++ (decimal (code_of s) ++ codes " ")
unfolding decimal
status_line-fits unknown = refl
status_line-fits ok = refl
status_line-fits moved_permanently = refl
status_line-fits bad_request = refl
status_line-fits not_found = refl

join-connection_pieces :
    (r : HttpResponse) (rest : List (List ℕ))
    → length (decimal (length r.body)) ≤ 13
    → join (connection_pieces r rest) ≡ connection_text r ++ join rest
join-connection_pieces r rest short = elim (Bool-cases r.close_connection) [
  | inl t ↦ simp t
  | inr t ↦ simp t (
      ap (λ line. line ++ ((codes "Connection: Keep-Alive" ++ crlf) ++ join rest))
        (take_all 31 (codes "Content-Length: " ++ (decimal (length r.body) ++ crlf))
          (omega (arith, short, length-append (decimal (length r.body)) crlf)))
      ∙ simp append_assoc)
]

join-pieces :
    (r : HttpResponse) → length (decimal (length r.body)) ≤ 13 → join (pieces r) ≡ response_text r
unfolding pieces
join-pieces r short =
    ap (λ line. line ++ (r.status_message ++ (crlf ++ join (connection_pieces r rest))))
      (status_line-fits r.status_code)
    ∙ rw (join-connection_pieces r rest short, join-header_pieces r.headers (crlf ∷ r.body ∷ []))
        (simp (append_assoc, append-nil))
  where
    rest : List (List ℕ)
    rest = header_pieces r.headers (crlf ∷ r.body ∷ [])

-- `appendToBuffer` leaves the buffer's content followed by the text of the response, if the vector
-- may grow so far, the length of the text is an int, and that of the body has at most thirteen digits.
pub append_to_buffer_lem :
    (r : HttpResponse) {b : Buffer} {xs : List ℕ}
    → Holds b xs
    → length (decimal (length r.body)) ≤ 13
    → length (response_text r) < 2 ^ 31
    → length b.buffer + length (response_text r) ≤ max_size
    → (b' : Buffer) × (append_to_buffer r b ≡ some b') × Holds b' (xs ++ response_text r)
unfolding append_to_buffer
append_to_buffer_lem r {b} {xs} h short int small =
    let (b', e, s) =
      append_each-Shape (pieces r) (Holds-Shape h)
        (omega (arith, int, ap length (join-pieces r short)))
        (omega (arith, small, ap length (join-pieces r short))) in
    (b', e, Shape-Holds (subst (λ text. Shape b' (xs ++ text)) (join-pieces r short) s))

-- ===== src/Http/Request.antt =====
-- muduo/net/http/HttpRequest.h and muduo/net/http/HttpContext.h: a request and the state of its
-- parse. A string is its bytes; a time is a number of microseconds.
use muduo_pro.Common.{
  ℕ, ◌≡◌, refl, Bool, true, false, not, ◌&&◌, ◌||◌, Option, none, some, List, [], ◌∷◌, leb, ◌==◌,
  if◌then◌else◌, ◌>>◌, guard, codes, bytes_eq, compare_bytes, StringMap, assign, find, arith,
  find-assign,
}

pub data Method : Type 0 where
  invalid get post head put delete : Method

pub data Version : Type 0 where
  unknown http10 http11 : Version

pub record HttpRequest : Type 0 where
  pub method : Method
  pub version : Version
  pub path : List ℕ
  pub receive_time : ℕ
  pub headers : StringMap

abbrev pub new_request : HttpRequest
new_request = record {
  method = invalid;
  version = unknown;
  path = [];
  receive_time = 0;
  headers = [];
}

abbrev pub is_invalid : Method → Bool
is_invalid invalid = true
is_invalid _ = false

unfoldable pub method_of : List ℕ → Method
method_of m =
    if bytes_eq m (codes "GET")
    then get
    else if bytes_eq m (codes "POST")
    then post
    else if bytes_eq m (codes "HEAD")
    then head
    else if bytes_eq m (codes "PUT")
    then put
    else if bytes_eq m (codes "DELETE")
    then delete
    else invalid

-- `none` is the failed assert that no method was set before.
unfoldable pub set_method : HttpRequest → List ℕ → Option (Bool × HttpRequest)
set_method r m = do
  guard (is_invalid r.method)
  some (not (is_invalid (method_of m)), record r { method = method_of m })

unfoldable pub method_string : Method → List ℕ
method_string invalid = codes "UNKNOWN"
method_string get = codes "GET"
method_string post = codes "POST"
method_string head = codes "HEAD"
method_string put = codes "PUT"
method_string delete = codes "DELETE"

-- `isspace` in the C locale.
abbrev pub is_space : ℕ → Bool
is_space c = c == 32 || (leb 9 c && leb c 13)

unfoldable pub trim_left : List ℕ → List ℕ
trim_left [] = []
trim_left (c ∷ cs) = if is_space c then trim_left cs else c ∷ cs

-- The bytes up to the last that is no space.
unfoldable pub trim_right : List ℕ → List ℕ
trim_right [] = []
trim_right (c ∷ cs) = elim (trim_right cs) [
  | [] ↦ if is_space c then [] else c ∷ []
  | d ∷ ds ↦ c ∷ d ∷ ds
]

-- `after` is what follows the colon.
unfoldable pub add_header : HttpRequest → List ℕ → List ℕ → HttpRequest
add_header r field after = record r {
  headers = assign field (trim_right (trim_left after)) r.headers;
}

-- An absent header reads as the empty string.
unfoldable pub get_header : HttpRequest → List ℕ → List ℕ
get_header r field = elim (find field r.headers) [ none ↦ [] | some value ↦ value ]

-- The version is not among the swapped fields.
unfoldable pub swap : HttpRequest → HttpRequest → HttpRequest × HttpRequest
swap a b = (
  record a { method = b.method; path = b.path; receive_time = b.receive_time; headers = b.headers },
  record b { method = a.method; path = a.path; receive_time = a.receive_time; headers = a.headers },
)

pub data ParseState : Type 0 where
  expect_request_line expect_headers expect_body got_all : ParseState

pub record HttpContext : Type 0 where
  pub state : ParseState
  pub request : HttpRequest

abbrev pub new_context : HttpContext
new_context = record { state = expect_request_line; request = new_request }

abbrev pub is_got_all : ParseState → Bool
is_got_all got_all = true
is_got_all _ = false

unfoldable pub receive_request_line : HttpContext → HttpContext
receive_request_line c = record c { state = expect_headers }

unfoldable pub receive_headers : HttpContext → HttpContext
receive_headers c = record c { state = got_all }

unfoldable pub reset : HttpContext → HttpContext
unfolding swap
reset c = record { state = expect_request_line; request = (swap c.request new_request).0 }

-- A header that is added is found under its field without the spaces around its value; every
-- other header is found as before.
pub get_header-add_header :
    (r : HttpRequest) (field other after : List ℕ)
    → get_header (add_header r field after) other
      ≡ (if bytes_eq other field then trim_right (trim_left after) else get_header r other)
unfolding get_header add_header
get_header-add_header r field other after =
    ground (arith, find-assign field other (trim_right (trim_left after)) r.headers)

-- `setMethod` reads back what `methodString` prints, for every method but the invalid one.
pub method_of-method_string : (m : Method) → is_invalid m ≡ false → method_of (method_string m) ≡ m
unfolding method_of method_string bytes_eq compare_bytes
method_of-method_string invalid h = cc
method_of-method_string get h = refl
method_of-method_string post h = refl
method_of-method_string head h = refl
method_of-method_string put h = refl
method_of-method_string delete h = refl

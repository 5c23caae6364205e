-- ===== src/Http/Server.antt =====
-- muduo/net/http/HttpServer.cc: `onConnection`, `onMessage` and `onRequest`. What they ask of the
-- connection is a list of effects; the user's callback is an argument.
pub mod Rejected
pub mod Replies
use muduo_pro.Common.{
  ℕ, Bool, true, false, not, ◌&&◌, ◌||◌, Option, none, some, List, [], ◌∷◌, ◌++◌, if◌then◌else◌,
  ◌>>=◌, codes, bytes_eq,
}
use muduo_pro.Buffer.{Buffer, new, retrieve_all_as_string}
use muduo_pro.Http.Request.{
  HttpRequest, Version, http10, HttpContext, new_context, get_header, reset, is_got_all,
}
use muduo_pro.Http.Parser.{Parse, done, fault, unfinished, parse_request}
use muduo_pro.Http.Response.{HttpResponse, not_found, new_response, append_to_buffer}

pub data Effect : Type 0 where
  send : List ℕ → Effect
  shutdown : Effect

unfoldable pub default_http_callback : HttpRequest → HttpResponse → HttpResponse
default_http_callback _ resp = record resp {
  status_code = not_found;
  status_message = codes "Not Found";
  close_connection = true;
}

-- `boost::any` of the connection: set when the connection comes up.
unfoldable pub on_connection : Bool → Option HttpContext → Option HttpContext
on_connection connected context = if connected then some new_context else context

abbrev pub is_http10 : Version → Bool
is_http10 http10 = true
is_http10 _ = false

-- Whether the connection ends with the response.
unfoldable pub wants_close : HttpRequest → Bool
wants_close req =
    bytes_eq (get_header req (codes "Connection")) (codes "close")
    || (is_http10 req.version
        && not (bytes_eq (get_header req (codes "Connection")) (codes "Keep-Alive")))

abbrev pub bad_request_text : List ℕ
bad_request_text = codes "HTTP/1.1 400 Bad Request" ++ (13 ∷ 10 ∷ 13 ∷ 10 ∷ [])

module _ (http_callback : HttpRequest → HttpResponse → HttpResponse) where
  unfoldable pub on_request : HttpRequest → Option (List Effect)
  on_request req =
      let response = http_callback req (new_response (wants_close req)) in
      (do
        buf ← append_to_buffer response new
        (text, _) ← retrieve_all_as_string buf
        some (send text ∷ (if response.close_connection then shutdown ∷ [] else [])))

  -- The request is answered and the context is made ready for the next.
  unfoldable pub answer : HttpContext → Option (List Effect × HttpContext)
  answer c =
      if is_got_all c.state
      then (do effects ← on_request c.request; some (effects, reset c))
      else some ([], c)

  unfoldable pub on_message :
      ℕ → HttpContext → Buffer → ℕ → Option (List Effect × HttpContext × Buffer)
  on_message rounds c buf time = elim (parse_request rounds buf c time) [
    | fault ↦ none
    | unfinished ↦ none
    | done ok c' buf' ↦ do
      (effects, c'') ← answer c'
      some ((if ok then [] else send bad_request_text ∷ shutdown ∷ []) ++ effects, c'', buf')
  ]

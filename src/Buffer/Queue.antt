-- ===== src/Buffer/Queue.antt =====
-- The buffer as a queue of bytes: what a sequence of calls of `append` and `retrieveAsString`
-- returns.
use muduo_pro.Common.{
  ℕ, ◌+◌, ◌≤◌, ◌≡◌, refl, inl, inr, ap, Option, some, List, [], ◌∷◌, ◌++◌, arith, leb, leb→le,
  leb_false→lt, Bool-cases, ◌>>=◌, ◌>>◌, guard, length, take, drop,
}
use muduo_pro.Buffer.{Buffer, retrieve, append, retrieve_as_string}
use muduo_pro.Buffer.Shape.{max_size, Holds, Holds-Shape}
use muduo_pro.Buffer.Shape.{Shape-Holds}
use muduo_pro.Buffer.Write.{append-Shape}
use muduo_pro.Buffer.Content.{retrieve_as_string_lem, retrieve_as_string_short}

pub data Call : Type 0 where
  put : List ℕ → Call
  get : ℕ → Call

-- The results of the calls in order; `none` once an assert fails.
unfoldable pub run : Buffer → List Call → Option (List (List ℕ))
run b [] = some []
run b (put ys ∷ calls) = do b' ← append b ys; run b' calls
run b (get n ∷ calls) = do
  (result, b') ← retrieve_as_string b n
  results ← run b' calls
  some (result ∷ results)

-- The same on a plain list of bytes.
unfoldable pub run_queue : List ℕ → List Call → Option (List (List ℕ))
run_queue xs [] = some []
run_queue xs (put ys ∷ calls) = run_queue (xs ++ ys) calls
run_queue xs (get n ∷ calls) = do
  guard (leb n (length xs))
  results ← run_queue (drop n xs) calls
  some (take n xs ∷ results)

-- The bytes that the calls append.
abbrev pub written : List Call → ℕ
written [] = 0
written (put ys ∷ calls) = length ys + written calls
written (get n ∷ calls) = written calls

length-retrieve_as_string :
    (b b' : Buffer) (n : ℕ) (xs : List ℕ)
    → retrieve_as_string b n ≡ some (xs, b')
    → b'.buffer ≡ b.buffer
unfolding retrieve_as_string retrieve
length-retrieve_as_string b b' n xs e = ground arith

-- Whatever sequence of appends and reads a client makes of a valid buffer, it sees what a queue of
-- bytes returns, failed asserts included, if the vector may hold all that is appended.
pub run_refines :
    (calls : List Call) {b : Buffer} {xs : List ℕ}
    → Holds b xs
    → length b.buffer + written calls ≤ max_size
    → run b calls ≡ run_queue xs calls
unfolding run run_queue
run_refines [] h small = refl
run_refines (put ys ∷ calls) h small =
    let (b', e, s, size) = append-Shape ys (Holds-Shape h) (omega (arith, small)) in
    rw e (run_refines calls (Shape-Holds s) (omega (arith, size, small)))
run_refines (get n ∷ calls) {b} {xs} h small = elim (Bool-cases (leb n (length xs))) [
  | inl fits ↦
      let (b', e, h') = retrieve_as_string_lem n h (leb→le _ _ fits) in
      rw
        (
          e,
          fits,
          run_refines calls h'
              (omega (arith, small, ap length (length-retrieve_as_string b b' n (take n xs) e))),
        )
        refl
  | inr short ↦ rw (short, retrieve_as_string_short n h (leb_false→lt _ _ short)) refl
]

-- ===== src/Buffer/Search.antt =====
-- `findCRLF` of muduo/net/Buffer.h: `std::search` for the bytes 13 10 in the content.
use muduo_pro.Common.{
  ℕ, suc, ◌+◌, ◌≤◌, ◌≡◌, ◌≢◌, refl, ap, ◌∙◌, inl, inr, ◌⊎◌, Bool, false, ◌&&◌, Option, none, some,
  List, [], ◌∷◌, ◌++◌, arith, leb, ◌==◌, if◌then◌else◌, ◌>>◌, Bool-cases, Option-cases, guard,
  length, length-append, slice, sub_size,
}
use mathlib.Core.Option
use muduo_pro.Buffer.{Buffer, readable_bytes}
use muduo_pro.Buffer.Shape.{Holds}

abbrev pub cr : ℕ
cr = 13

abbrev pub lf : ℕ
lf = 10

abbrev starts_with_crlf : List ℕ → Bool
starts_with_crlf [] = false
starts_with_crlf (c ∷ []) = false
starts_with_crlf (c ∷ d ∷ rest) = c == cr && d == lf

-- The place of the first CRLF.
unfoldable pub search_crlf : List ℕ → Option ℕ
search_crlf [] = none
search_crlf (c ∷ rest) =
    if starts_with_crlf (c ∷ rest) then some 0 else Option.map suc (search_crlf rest)

-- The result is an index into the vector; `none` is NULL.
unfoldable pub find_crlf : Buffer → Option ℕ
find_crlf b =
    Option.map (λ i. b.reader_index + i)
      (search_crlf (slice b.buffer b.reader_index (readable_bytes b)))

-- The outer option is the asserts.
unfoldable pub find_crlf_from : Buffer → ℕ → Option (Option ℕ)
find_crlf_from b start = do
  guard (leb b.reader_index start)
  guard (leb start b.writer_index)
  some (
      Option.map (λ i. start + i)
        (search_crlf (slice b.buffer start (sub_size b.writer_index start))))

-- A step over a byte finds no CRLF that was not there.
search_crlf-step :
    (c d : ℕ) (after line rest : List ℕ)
    → (c == cr && d == lf) ≡ false
    → d ∷ after ≡ line ++ (cr ∷ lf ∷ rest)
    → search_crlf (line ++ (cr ∷ [])) ≡ none
    → search_crlf (c ∷ (line ++ (cr ∷ []))) ≡ none
unfolding search_crlf
search_crlf-step c d after [] rest t e h = ground arith
search_crlf-step c d after (l ∷ []) rest t e h = ground arith
search_crlf-step c d after (l ∷ m ∷ line) rest t e h = ground arith

-- Where the search finds a CRLF, it is the first: the bytes before it hold none, not even one that
-- ends in its CR.
pub search_crlf-some :
    (xs : List ℕ) (i : ℕ)
    → search_crlf xs ≡ some i
    → (line rest : List ℕ) × (xs ≡ line ++ (cr ∷ lf ∷ rest))
      × (length line ≡ i)
      × (search_crlf (line ++ (cr ∷ [])) ≡ none)
unfolding search_crlf
search_crlf-some [] i e = cc
search_crlf-some (c ∷ []) i e = cc
search_crlf-some (c ∷ d ∷ rest) i e = elim (Bool-cases (c == cr && d == lf)) [
  | inl hit ↦ ([], rest, ground arith, ground arith, refl)
  | inr miss ↦ elim (Option-cases (search_crlf (d ∷ rest))) [
    | inl n ↦ ground arith
    | inr (j, found) ↦
        let (line, after, split, len, first) = search_crlf-some (d ∷ rest) j found in
        (
          c ∷ line,
          after,
          ap (◌∷◌ c) split,
          ground arith,
          search_crlf-step c d rest line after miss split first,
        )
  ]
]

-- A search that finds none rules out a CRLF at every place.
pub search_crlf-ne-none : (line rest : List ℕ) → search_crlf (line ++ (cr ∷ lf ∷ rest)) ≢ none
unfolding search_crlf
search_crlf-ne-none [] rest = λ e. cc
search_crlf-ne-none (c ∷ []) rest = ground (arith, search_crlf-ne-none [] rest)
search_crlf-ne-none (c ∷ d ∷ line) rest = ground (arith, search_crlf-ne-none (d ∷ line) rest)

-- A line without a CR.
abbrev pub NoCr : List ℕ → Type 0
NoCr [] = Unit
NoCr (c ∷ line) = (c ≢ cr) × NoCr line

-- Such a line is found to its end.
pub search_crlf-line :
    (line rest : List ℕ) → NoCr line → search_crlf (line ++ (cr ∷ lf ∷ rest)) ≡ some (length line)
unfolding search_crlf
search_crlf-line [] rest h = refl
search_crlf-line (c ∷ []) rest h = ground (arith, search_crlf-line [] rest)
search_crlf-line (c ∷ d ∷ line) rest h = ground (arith, search_crlf-line (d ∷ line) rest h.1)

pub find_crlf_search :
    {b : Buffer} {xs : List ℕ}
    → Holds b xs
    → find_crlf b ≡ Option.map (λ i. b.reader_index + i) (search_crlf xs)
unfolding find_crlf
find_crlf_search {b} {xs} h =
    ap (λ ys. Option.map (λ i. b.reader_index + i) (search_crlf ys))
      (ap (slice b.buffer b.reader_index) (omega (arith, h.0)) ∙ h.1)

pub search_crlf-room : (xs : List ℕ) (i : ℕ) → search_crlf xs ≡ some i → i + 2 ≤ length xs
search_crlf-room xs i e =
    let (line, rest, split, len, _) = search_crlf-some xs i e in
    omega (arith, ap length split, length-append line (cr ∷ lf ∷ rest), len)

-- Bytes that come later do not move the first CRLF.
pub search_crlf-append :
    (xs ys : List ℕ) (i : ℕ) → search_crlf xs ≡ some i → search_crlf (xs ++ ys) ≡ some i
unfolding search_crlf
search_crlf-append [] ys i e = cc
search_crlf-append (c ∷ []) ys i e = cc
search_crlf-append (c ∷ d ∷ xs) ys i e = elim (Option-cases (search_crlf (d ∷ xs))) [
  | inl n ↦ ground arith
  | inr (j, found) ↦ ground (arith, search_crlf-append (d ∷ xs) ys j found)
]

-- `findCRLF` returns the index, behind the read index, of the first CRLF of the content: NULL if
-- and only if the content holds none.
pub find_crlf_lem :
    {b : Buffer} {xs : List ℕ}
    → Holds b xs
    → (((line rest : List ℕ) → xs ≢ line ++ (cr ∷ lf ∷ rest)) × (find_crlf b ≡ none))
      ⊎ ((line rest : List ℕ) × (xs ≡ line ++ (cr ∷ lf ∷ rest))
          × (search_crlf (line ++ (cr ∷ [])) ≡ none)
          × (find_crlf b ≡ some (b.reader_index + length line)))
find_crlf_lem {b} {xs} h = elim (Option-cases (search_crlf xs)) [
  | inl n ↦
      inl
        (λ line rest e. search_crlf-ne-none line rest (rw (← e) n), rw (find_crlf_search h, n) refl)
  | inr (i, found) ↦
      let (line, rest, split, len, first) = search_crlf-some xs i found in
      inr (line, rest, split, first, rw (find_crlf_search h, found, len) refl)
]

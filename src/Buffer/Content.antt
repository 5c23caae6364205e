-- ===== src/Buffer/Content.antt =====
-- What each method of the buffer does to its content.
use muduo_pro.Common.{
  ℕ, ◌+◌, ◌≤◌, ◌<◌, ◌^◌, ◌≡◌, refl, sym, ap, subst, ◌∙◌, inl, inr, true, false, none, some, List,
  [], ◌++◌, append_assoc, append-nil, arith, length, take, drop, slice, splice, length-take,
  length-drop, take-append-drop, Bool-cases, leb, leb→le, leb_false→lt, le→leb, lt→leb, int_size,
  replicate, take_all, drop-append, take-append_le, add_size, sub_size, length-splice,
}
use muduo_pro.Buffer.{
  Buffer, readable_bytes, writable_bytes, prependable_bytes, cheap_prepend, initial_size, new,
  copy_to, bytes_at, retrieve, retrieve_until, retrieve_as_string, to_string_piece, append, prepend,
  shrink, ReadResult, failed, got, received, extrabuf_size, read_fd,
}
use muduo_pro.Buffer.Shape.{
  max_size, Holds, Shape, Shape-length, Shape-Holds, Holds-Shape, Shape-readable, Shape-writable,
}
use muduo_pro.Buffer.Retrieve.{retrieve-Shape, bytes_at-Shape, copy_to-some}
use muduo_pro.Buffer.Room.{ensure_writable_bytes-MakesRoom}
use muduo_pro.Buffer.Write.{append-Shape, append_within-Shape, prepend-Shape, write-Shape}

pub new-Shape : Shape new []
unfolding new
new-Shape = record {
  front = replicate cheap_prepend 0;
  back = replicate initial_size 0;
  layout = refl;
  reader = refl;
  writer = refl;
  small = omega arith;
  spare = omega arith;
}

-- `append` succeeds on a valid buffer, whether it has the room, finds it at the front or grows the
-- vector, and leaves the content followed by the new bytes, if the vector may grow so far.
pub append_lem :
    {b : Buffer} {xs : List ℕ} (ys : List ℕ)
    → Holds b xs
    → length b.buffer + length ys ≤ max_size
    → (b' : Buffer) × (append b ys ≡ some b') × Holds b' (xs ++ ys)
append_lem ys h small =
    let (b', e, s, _) = append-Shape ys (Holds-Shape h) small in (b', e, Shape-Holds s)

-- `retrieve` takes `len` bytes from the front of the content, and fails its assert exactly when
-- there are fewer.
pub retrieve_lem :
    {b : Buffer} {xs : List ℕ} (len : ℕ)
    → Holds b xs
    → (len ≤ length xs → (b' : Buffer) × (retrieve b len ≡ some b') × Holds b' (drop len xs))
      × (length xs < len → retrieve b len ≡ none)
unfolding retrieve
retrieve_lem {b} {xs} len h = (
  λ le. let (b', e, s) = retrieve-Shape len (Holds-Shape h) le in (b', e, Shape-Holds s),
  λ more. rw (lt→leb len (readable_bytes b) (omega (arith, Shape-readable (Holds-Shape h)))) refl,
)

-- `retrieveAsString` returns the first `len` bytes of the content and leaves the others.
pub retrieve_as_string_lem :
    {b : Buffer} {xs : List ℕ} (len : ℕ)
    → Holds b xs
    → len ≤ length xs
    → (b' : Buffer) × (retrieve_as_string b len ≡ some (take len xs, b')) × Holds b' (drop len xs)
unfolding retrieve_as_string
retrieve_as_string_lem {b} {xs} len h le =
    let s = Holds-Shape h in
    let (b', e, s') = retrieve-Shape len s le in
    (
      b',
      rw
          (
            le→leb len (readable_bytes b) (omega (arith, Shape-readable s)),
            bytes_at-Shape len s le,
            e,
          )
          refl,
      Shape-Holds s',
    )

pub retrieve_as_string_short :
    {b : Buffer} {xs : List ℕ} (len : ℕ)
    → Holds b xs
    → length xs < len
    → retrieve_as_string b len ≡ none
unfolding retrieve_as_string
retrieve_as_string_short {b} {xs} len h more =
    rw (lt→leb len (readable_bytes b) (omega (arith, more, Shape-readable (Holds-Shape h)))) refl

-- `retrieveUntil` takes the bytes before its end from the content.
pub retrieve_until_lem :
    {b : Buffer} {xs : List ℕ} (n end : ℕ)
    → Holds b xs
    → n ≤ length xs
    → end ≡ b.reader_index + n
    → (b' : Buffer) × (retrieve_until b end ≡ some b') × Holds b' (drop n xs)
unfolding retrieve_until
retrieve_until_lem {b} {xs} n end h le e =
    let s = Holds-Shape h in
    let (b', e', s') = retrieve-Shape n s le in
    let steps : sub_size end b.reader_index ≡ n =
      omega (arith, e, le, s.reader, s.small, Shape-length s) in
    (
      b',
      rw
          (
            le→leb b.reader_index end (omega arith),
            le→leb end b.writer_index (omega (arith, s.reader, s.writer)),
            steps,
            e',
          )
          refl,
      Shape-Holds s',
    )

-- The bytes up to an index of the content.
pub slice-Holds :
    {b : Buffer} {xs : List ℕ} (n : ℕ)
    → Holds b xs
    → n ≤ length xs
    → slice b.buffer b.reader_index (sub_size (b.reader_index + n) b.reader_index) ≡ take n xs
slice-Holds {b} {xs} n h le =
    let s = Holds-Shape h in
    ap (slice b.buffer b.reader_index) (omega (arith, le, s.reader, s.small, Shape-length s))
    ∙ ap (λ bytes. slice bytes b.reader_index n) s.layout
    ∙ ap (take n) (drop-append b.reader_index s.front (xs ++ s.back) s.reader)
    ∙ take-append_le n xs s.back le

-- `prepend` puts its bytes before the content, and fails exactly when they do not fit before it.
pub prepend_lem :
    {b : Buffer} {xs : List ℕ} (ys : List ℕ)
    → Holds b xs
    → (length ys ≤ prependable_bytes b
        → (b' : Buffer) × (prepend b ys ≡ some b') × Holds b' (ys ++ xs))
      × (prependable_bytes b < length ys → prepend b ys ≡ none)
unfolding prepend
prepend_lem {b} {xs} ys h = (
  λ room. let (b', e, s) = prepend-Shape ys (Holds-Shape h) room in (b', e, Shape-Holds s),
  λ more. rw (lt→leb (length ys) (prependable_bytes b) more) refl,
)

int_size-small : (n : ℕ) → n < 2 ^ 31 → int_size n ≡ n
int_size-small n h = ground arith

-- `shrink` keeps the content, in a vector with at least `reserve` bytes to write to, if the content
-- is shorter than 2^31 bytes, the range of a `StringPiece`'s length.
pub shrink_lem :
    {b : Buffer} {xs : List ℕ} (reserve : ℕ)
    → Holds b xs
    → length xs < 2 ^ 31
    → reserve < 2 ^ 62
    → (b' : Buffer) × (shrink b reserve ≡ some b') × Holds b' xs × (reserve ≤ writable_bytes b')
unfolding shrink to_string_piece new
shrink_lem {b} {xs} reserve h short res =
    let s = Holds-Shape h in
    let len : ℕ = add_size (readable_bytes b) reserve in
    let (o, e, s₁, room, size, _) =
      ensure_writable_bytes-MakesRoom len new-Shape (omega (arith, Shape-readable s)) in
    let (b', e', s', left) = append_within-Shape xs s₁ (omega (arith, room, Shape-readable s)) in
    (
      b',
      rw (e, piece s, e') refl,
      Shape-Holds s',
      omega (arith, left, room, Shape-readable s, Shape-writable s'),
    )
  where
    piece : Shape b xs → bytes_at b.buffer b.reader_index (int_size (readable_bytes b)) ≡ some xs
    piece s =
        ap (λ n. bytes_at b.buffer b.reader_index (int_size n)) (Shape-readable s)
        ∙ ap (bytes_at b.buffer b.reader_index) (int_size-small (length xs) short)
        ∙ bytes_at-Shape (length xs) s (omega arith)
        ∙ ap some (take_all (length xs) xs (omega arith))

-- `readFd` on an error changes nothing; else it appends what the kernel wrote, in one array or in
-- both, if that is no more than the two arrays hold and the vector may grow so far.
pub read_fd_lem :
    {b : Buffer} {xs : List ℕ} (r : ReadResult)
    → Holds b xs
    → length b.buffer + extrabuf_size ≤ max_size
    → length (received r) ≤ writable_bytes b + extrabuf_size
    → (b' : Buffer) × (read_fd b r ≡ some (b', r)) × Holds b' (xs ++ received r)
unfolding read_fd
read_fd_lem {b} {xs} (failed errno) h small fits = (b, refl, (h.0, h.1 ∙ sym (append-nil xs)))
read_fd_lem {b} {xs} (got bytes) h small fits = elim (Bool-cases (leb (length bytes) writable)) [
  | inl one ↦ (
    record b {
      buffer = splice b.buffer b.writer_index bytes;
      writer_index = add_size b.writer_index (length bytes);
    },
    rw (guarded, first, one, take_all writable bytes (leb→le _ _ one)) refl,
    Shape-Holds (
        write-Shape bytes (add_size b.writer_index (length bytes)) s
          (omega (arith, leb→le _ _ one, room))
          (omega (arith, leb→le _ _ one, room, s.small, s.writer, Shape-length s))),
  )
  | inr both ↦
      let (b', e, s', _) = append-Shape (drop writable bytes) (filled both) (
        omega (
          arith,
          small,
          fits,
          length-drop writable bytes,
          length-splice b.buffer b.writer_index (take writable bytes) inside,
        )) in
      (
        b',
        rw (guarded, first, both, e) refl,
        Shape-Holds (
            subst (Shape b')
              (append_assoc xs (take writable bytes) (drop writable bytes)
                ∙ ap (◌++◌ xs) (take-append-drop writable bytes))
              s'),
      )
]
  where
    s : Shape b xs
    s = Holds-Shape h

    writable : ℕ
    writable = writable_bytes b

    room : writable ≡ length s.back
    room = Shape-writable s

    inside : b.writer_index + length (take writable bytes) ≤ length b.buffer
    inside = omega (arith, room, s.writer, Shape-length s, length-take writable bytes)

    guarded : leb (length bytes) (add_size writable extrabuf_size) ≡ true
    guarded = le→leb _ _ (omega (arith, fits, room, small, Shape-length s))

    first :
        copy_to b.buffer b.writer_index (take writable bytes)
        ≡ some (splice b.buffer b.writer_index (take writable bytes))
    first = copy_to-some b.buffer b.writer_index (take writable bytes) inside

    filled :
        leb (length bytes) writable ≡ false
        → Shape
            (record b {
              buffer = splice b.buffer b.writer_index (take writable bytes);
              writer_index = length (splice b.buffer b.writer_index (take writable bytes));
            })
            (xs ++ take writable bytes)
    filled both =
        write-Shape (take writable bytes) _ s (omega (arith, room, length-take writable bytes)) (
          omega (
            arith,
            leb_false→lt _ _ both,
            length-splice b.buffer b.writer_index (take writable bytes) inside,
            length-take writable bytes,
            room,
            s.writer,
            Shape-length s,
          ))

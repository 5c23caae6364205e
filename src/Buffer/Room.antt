-- ===== src/Buffer/Room.antt =====
-- Making room: growing the vector, or moving the content to its front.
use muduo_pro.Common.{
  ℕ, ◌+◌, ◌-◌, ◌≤◌, ◌<◌, ◌≡◌, refl, ap, ◌∙◌, inl, inr, Option, some, List, ◌++◌, append_assoc,
  arith, length, take, splice, min, length-append, length-take, Bool-cases, ltb, le→leb, ltb→lt,
  replicate, length-replicate, take_all, ltb_false→le, lt→ltb, ==_refl, add_size, length-splice,
}
use muduo_pro.Buffer.{
  Buffer, writable_bytes, prependable_bytes, cheap_prepend, resize, make_space,
  ensure_writable_bytes,
}
use muduo_pro.Buffer.Shape.{
  max_size, Shape, Shape-length, splice-Shape, Shape-readable, Shape-writable,
}
use muduo_pro.Buffer.Retrieve.{copy_to-some, bytes_at-Shape}

-- Growing the vector at its end.
pub grow-Shape :
    {b : Buffer} {xs : List ℕ} (n : ℕ) (s : Shape b xs)
    → length b.buffer ≤ n
    → n ≤ max_size
    → (s' : Shape (record b { buffer = resize b.buffer n }) xs) × (length s'.back
        ≡ length s.back + (n - length b.buffer))
grow-Shape {b} {xs} n s more small = (
  record {
    front = s.front;
    back = s.back ++ zeros;
    layout =
        ap (λ bytes. bytes ++ zeros) (take_all n b.buffer more ∙ s.layout)
        ∙ append_assoc s.front (xs ++ s.back) zeros
        ∙ ap (◌++◌ s.front) (append_assoc xs s.back zeros);
    reader = s.reader;
    writer = s.writer;
    small = omega (arith, length-resized);
    spare = omega (arith, s.spare, length-resized);
  },
  omega (arith, length-append s.back zeros, length-replicate (n - length b.buffer) zeroed),
)
  where
    zeroed : ℕ
    zeroed = 0

    zeros : List ℕ
    zeros = replicate (n - length b.buffer) 0

    length-resized : length (resize b.buffer n) ≡ n
    length-resized = omega (
      arith,
      length-append (take n b.buffer) zeros,
      length-take n b.buffer,
      length-replicate (n - length b.buffer) zeroed,
    )

-- The outcome of a call that makes room: a buffer with the same content, `len` bytes to write to,
-- a vector of at most `limit` bytes, and as much before the content as there was, up to 8 bytes.
abbrev pub MakesRoom : Buffer → List ℕ → ℕ → ℕ → Option Buffer → Type 0
MakesRoom b xs len limit r =
    (b' : Buffer) × (r ≡ some b')
    × (s' : Shape b' xs) × (len ≤ length s'.back)
    × (length b'.buffer ≤ limit)
    × (min b.reader_index cheap_prepend ≤ b'.reader_index)

pub make_space-MakesRoom :
    {b : Buffer} {xs : List ℕ} (len : ℕ) (s : Shape b xs)
    → length s.back < len
    → length b.buffer + len ≤ max_size
    → MakesRoom b xs len (length b.buffer + len) (make_space b len)
unfolding make_space
make_space-MakesRoom {b} {xs} len s short small =
    elim (Bool-cases
      (ltb (add_size (writable_bytes b) (prependable_bytes b)) (add_size len cheap_prepend))) [
        | inl tight ↦
            let n : ℕ = add_size b.writer_index len in
            let g =
              grow-Shape n s (omega (arith, s.writer, Shape-length s))
                (omega (arith, s.writer, Shape-length s)) in
            (
              record b { buffer = resize b.buffer n },
              rw tight refl,
              g.0,
              omega (arith, g.1, s.writer, Shape-length s),
              omega (arith, Shape-length g.0, g.1, s.writer, Shape-length s),
              omega arith,
            )
        | inr loose ↦
            let far : cheap_prepend < b.reader_index =
              omega (arith, ltb_false→le _ _ loose, Shape-writable s) in
            let fits : cheap_prepend + length xs ≤ length b.buffer =
              omega (arith, s.reader, Shape-length s) in
            let s' =
              splice-Shape b.buffer cheap_prepend xs fits s.small s.spare
                (add_size cheap_prepend (length xs)) (omega (arith, s.small)) in
            (
              record {
                buffer = splice b.buffer cheap_prepend xs;
                reader_index = cheap_prepend;
                writer_index = add_size cheap_prepend (length xs);
              },
              rw
                  (
                    loose,
                    lt→ltb cheap_prepend b.reader_index far,
                    Shape-readable s,
                    bytes_at-Shape (length xs) s (omega arith),
                    take_all (length xs) xs (omega arith),
                    copy_to-some b.buffer cheap_prepend xs fits,
                    Shape-readable s',
                    ==_refl (length xs),
                  )
                  refl,
              s',
              omega (
                arith,
                ltb_false→le _ _ loose,
                Shape-writable s,
                Shape-length s',
                s'.reader,
                length-splice b.buffer cheap_prepend xs fits,
                s.reader,
                Shape-length s,
              ),
              omega (arith, length-splice b.buffer cheap_prepend xs fits),
              omega arith,
            )
      ]

pub ensure_writable_bytes-MakesRoom :
    {b : Buffer} {xs : List ℕ} (len : ℕ)
    → Shape b xs
    → length b.buffer + len ≤ max_size
    → MakesRoom b xs len (length b.buffer + len) (ensure_writable_bytes b len)
unfolding ensure_writable_bytes
ensure_writable_bytes-MakesRoom {b} {xs} len s small =
    elim (Bool-cases (ltb (writable_bytes b) len)) [
      | inl short ↦
          let (b', e, s', room, size, front) =
            make_space-MakesRoom len s (omega (arith, ltb→lt _ _ short, Shape-writable s)) small in
          (
            b',
            rw (short, e, le→leb len (writable_bytes b') (omega (arith, Shape-writable s'))) refl,
            s',
            room,
            size,
            front,
          )
      | inr wide ↦
          let room : len ≤ writable_bytes b = ltb_false→le _ _ wide in
          (
            b,
            rw (wide, le→leb len (writable_bytes b) room) refl,
            s,
            omega (arith, room, Shape-writable s),
            omega arith,
            omega arith,
          )
    ]

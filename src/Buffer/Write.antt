-- ===== src/Buffer/Write.antt =====
-- Writing behind the content and in front of it.
use muduo_pro.Common.{
  min, ℕ, ◌+◌, ◌-◌, ◌≤◌, ◌≡◌, refl, sym, ap, ap₂, ◌∙◌, some, List, ◌++◌, append_assoc, arith,
  length, take, drop, splice, length-append, length-take, length-drop, le→leb, le→ltb, drop-append,
  drop-append_more, take-append, add_size, sub_size, length-splice,
}
use muduo_pro.Buffer.{
  cheap_prepend, Buffer, writable_bytes, ensure_writable_bytes, has_written, append, prepend,
}
use muduo_pro.Buffer.Shape.{max_size, Shape, Shape-length, Shape-writable}
use muduo_pro.Buffer.Retrieve.{copy_to-some}
use muduo_pro.Buffer.Room.{ensure_writable_bytes-MakesRoom}

-- Writing `ys` behind the content.
pub write-Shape :
    {b : Buffer} {xs : List ℕ} (ys : List ℕ) (w : ℕ) (s : Shape b xs)
    → length ys ≤ length s.back
    → w ≡ b.writer_index + length ys
    → Shape (record b { buffer = splice b.buffer b.writer_index ys; writer_index = w }) (xs ++ ys)
write-Shape {b} {xs} ys w s room e = record {
  front = s.front;
  back = drop (length ys) s.back;
  layout =
      ap₂ ◌++◌
        (ap (take b.writer_index) whole ∙ take-append b.writer_index (s.front ++ xs) s.back at_end)
        (ap (λ bytes. ys ++ drop (b.writer_index + length ys) bytes) whole
          ∙ ap (◌++◌ ys)
              (drop-append_more b.writer_index (length ys) (s.front ++ xs) s.back at_end))
      ∙ append_assoc s.front xs (ys ++ drop (length ys) s.back)
      ∙ ap (◌++◌ s.front) (sym (append_assoc xs ys (drop (length ys) s.back)));
  reader = s.reader;
  writer = omega (arith, s.writer, length-append xs ys);
  small = omega (arith, s.small, length-splice b.buffer b.writer_index ys fits);
  spare = omega (arith, s.spare, length-splice b.buffer b.writer_index ys fits);
}
  where
    whole : b.buffer ≡ (s.front ++ xs) ++ s.back
    whole = s.layout ∙ sym (append_assoc s.front xs s.back)

    at_end : b.writer_index ≡ length (s.front ++ xs)
    at_end = omega (arith, s.writer, length-append s.front xs)

    fits : b.writer_index + length ys ≤ length b.buffer
    fits = omega (arith, s.writer, Shape-length s)

pub append-Shape_front :
    {b : Buffer} {xs : List ℕ} (ys : List ℕ)
    → Shape b xs
    → length b.buffer + length ys ≤ max_size
    → (b' : Buffer) × (append b ys ≡ some b')
      × Shape b' (xs ++ ys)
      × (length b'.buffer ≤ length b.buffer + length ys)
      × (min b.reader_index cheap_prepend ≤ b'.reader_index)
unfolding append has_written
append-Shape_front {b} {xs} ys s small =
    let (b₁, e, s₁, room, size, front) = ensure_writable_bytes-MakesRoom (length ys) s small in
    let fits : b₁.writer_index + length ys ≤ length b₁.buffer =
      omega (arith, s₁.writer, Shape-length s₁) in
    (
      record b₁ {
        buffer = splice b₁.buffer b₁.writer_index ys;
        writer_index = add_size b₁.writer_index (length ys);
      },
      rw (e, copy_to-some b₁.buffer b₁.writer_index ys fits) refl,
      write-Shape ys (add_size b₁.writer_index (length ys)) s₁ room (omega (arith, s₁.small)),
      omega (arith, length-splice b₁.buffer b₁.writer_index ys fits),
      front,
    )

pub append-Shape :
    {b : Buffer} {xs : List ℕ} (ys : List ℕ)
    → Shape b xs
    → length b.buffer + length ys ≤ max_size
    → (b' : Buffer) × (append b ys ≡ some b')
      × Shape b' (xs ++ ys)
      × (length b'.buffer ≤ length b.buffer + length ys)
append-Shape ys s small =
    let (b', e, s', size, front) = append-Shape_front ys s small in (b', e, s', size)

-- Where there is room already, nothing moves.
pub append_within-Shape :
    {b : Buffer} {xs : List ℕ} (ys : List ℕ) (s : Shape b xs)
    → length ys ≤ length s.back
    → (b' : Buffer) × (append b ys ≡ some b')
      × (s' : Shape b' (xs ++ ys)) × (length s'.back ≡ length s.back - length ys)
unfolding append has_written ensure_writable_bytes write-Shape
append_within-Shape {b} {xs} ys s room = (
  record b {
    buffer = splice b.buffer b.writer_index ys;
    writer_index = add_size b.writer_index (length ys);
  },
  rw
      (
        le→ltb (writable_bytes b) (length ys) wide,
        le→leb (length ys) (writable_bytes b) wide,
        copy_to-some b.buffer b.writer_index ys (omega (arith, s.writer, Shape-length s)),
      )
      refl,
  write-Shape ys (add_size b.writer_index (length ys)) s room
      (omega (arith, s.small, s.writer, Shape-length s)),
  length-drop (length ys) s.back,
)
  where
    wide : length ys ≤ writable_bytes b
    wide = omega (arith, Shape-writable s)

pub prepend-Shape :
    {b : Buffer} {xs : List ℕ} (ys : List ℕ)
    → Shape b xs
    → length ys ≤ b.reader_index
    → (b' : Buffer) × (prepend b ys ≡ some b') × Shape b' (ys ++ xs)
unfolding prepend
prepend-Shape {b} {xs} ys s room = (
  record b { buffer = splice b.buffer start ys; reader_index = start },
  rw (le→leb (length ys) b.reader_index room, copy_to-some b.buffer start ys fits) refl,
  record {
    front = take start b.buffer;
    back = s.back;
    layout =
        ap (λ bytes. take start b.buffer ++ (ys ++ bytes))
          (ap₂ drop end s.layout ∙ drop-append (length s.front) s.front (xs ++ s.back) refl)
        ∙ ap (◌++◌ (take start b.buffer)) (sym (append_assoc ys xs s.back));
    reader = omega (arith, start_eq, fits, length-take start b.buffer);
    writer = omega (
      arith,
      start_eq,
      s.writer,
      s.reader,
      fits,
      length-take start b.buffer,
      length-append ys xs,
    );
    small = omega (arith, s.small, length-splice b.buffer start ys fits);
    spare = omega (arith, s.spare, length-splice b.buffer start ys fits);
  },
)
  where
    start : ℕ
    start = sub_size b.reader_index (length ys)

    start_eq : start + length ys ≡ b.reader_index
    start_eq = omega (arith, s.reader, s.small, Shape-length s)

    fits : start + length ys ≤ length b.buffer
    fits = omega (arith, start_eq, s.reader, Shape-length s)

    end : start + length ys ≡ length s.front
    end = omega (arith, start_eq, s.reader)

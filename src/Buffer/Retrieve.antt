-- ===== src/Buffer/Retrieve.antt =====
-- Reading from the vector: how the read index moves over the content.
use muduo_pro.Common.{
  ℕ, ◌+◌, ◌≤◌, ◌≡◌, refl, sym, ap, ◌∙◌, inl, inr, some, List, [], ◌++◌, append_assoc, arith, length,
  take, drop, slice, splice, length-append, length-take, length-drop, take-append-drop, Bool-cases,
  ltb, le→leb, drop_all, drop-append, take-append_le, ltb_false→le, add_size,
}
use muduo_pro.Buffer.{
  Buffer, readable_bytes, cheap_prepend, copy_to, bytes_at, retrieve_all, retrieve,
}
use muduo_pro.Buffer.Shape.{Shape, Shape-length, Shape-readable}

pub retrieve_all-Shape : {b : Buffer} {xs : List ℕ} → Shape b xs → Shape (retrieve_all b) []
unfolding retrieve_all
retrieve_all-Shape {b} s = record {
  front = take cheap_prepend b.buffer;
  back = drop cheap_prepend b.buffer;
  layout = sym (take-append-drop cheap_prepend b.buffer);
  reader = omega (arith, s.spare, length-take cheap_prepend b.buffer);
  writer = omega (arith, s.spare, length-take cheap_prepend b.buffer);
  small = s.small;
  spare = s.spare;
}

-- Moving the read index over a part of the content.
pub advance-Shape :
    {b : Buffer} {xs : List ℕ} (len r : ℕ)
    → Shape b xs
    → len ≤ length xs
    → r ≡ b.reader_index + len
    → Shape (record b { reader_index = r }) (drop len xs)
advance-Shape {b} {xs} len r s h e = record {
  front = s.front ++ take len xs;
  back = s.back;
  layout =
      s.layout
      ∙ ap (λ ys. s.front ++ (ys ++ s.back)) (sym (take-append-drop len xs))
      ∙ ap (◌++◌ s.front) (append_assoc (take len xs) (drop len xs) s.back)
      ∙ sym (append_assoc s.front (take len xs) (drop len xs ++ s.back));
  reader = omega (arith, s.reader, length-append s.front (take len xs), length-take len xs);
  writer = omega (
    arith,
    s.writer,
    length-append s.front (take len xs),
    length-take len xs,
    length-drop len xs,
  );
  small = s.small;
  spare = s.spare;
}

pub retrieve-Shape :
    {b : Buffer} {xs : List ℕ} (len : ℕ)
    → Shape b xs
    → len ≤ length xs
    → (b' : Buffer) × (retrieve b len ≡ some b') × Shape b' (drop len xs)
unfolding retrieve
retrieve-Shape {b} {xs} len s h = elim (Bool-cases (ltb len (readable_bytes b))) [
  | inl more ↦ (
    record b { reader_index = add_size b.reader_index len },
    rw (le→leb len (readable_bytes b) fits, more) refl,
    advance-Shape len (add_size b.reader_index len) s h
        (omega (arith, s.reader, s.small, Shape-length s)),
  )
  | inr all ↦ (
    retrieve_all b,
    rw (le→leb len (readable_bytes b) fits, all) refl,
    rw (drop_all len xs (omega (arith, Shape-readable s, ltb_false→le len (readable_bytes b) all)))
        (retrieve_all-Shape s),
  )
]
  where
    fits : len ≤ readable_bytes b
    fits = omega (arith, Shape-readable s)

pub copy_to-some :
    (bytes : List ℕ) (i : ℕ) (xs : List ℕ)
    → i + length xs ≤ length bytes
    → copy_to bytes i xs ≡ some (splice bytes i xs)
unfolding copy_to
copy_to-some bytes i xs h = rw (le→leb (i + length xs) (length bytes) h) refl

pub bytes_at-Shape :
    {b : Buffer} {xs : List ℕ} (len : ℕ)
    → Shape b xs
    → len ≤ length xs
    → bytes_at b.buffer b.reader_index len ≡ some (take len xs)
unfolding bytes_at
bytes_at-Shape {b} {xs} len s h =
    rw (le→leb (b.reader_index + len) (length b.buffer) (omega (arith, s.reader, Shape-length s))) (
      ap some (
        ap (λ bytes. slice bytes b.reader_index len) s.layout
        ∙ ap (take len) (drop-append b.reader_index s.front (xs ++ s.back) s.reader)
        ∙ take-append_le len xs s.back h))

-- ===== src/Buffer/Shape.antt =====
-- The buffer's layout: prependable bytes, content, writable bytes, one after the other.
use muduo_pro.Common.{
  ℕ, ◌+◌, ◌-◌, ◌≤◌, ◌^◌, ◌≡◌, refl, sym, ap, ◌∙◌, List, ◌++◌, arith, length, take, drop, slice,
  splice, length-append, length-take, length-slice, slice-append, length-splice, take-append-drop,
}
use muduo_pro.Buffer.{Buffer, readable_bytes, writable_bytes, cheap_prepend}

-- `vector<char>::max_size()`, the most bytes that a vector can hold.
abbrev pub max_size : ℕ
max_size = 2 ^ 63 - 1

-- The indices are in order and in range, and the vector has room for the prependable bytes.
pub record IsValid (b : Buffer) : Type 0 where
  pub ordered : b.reader_index ≤ b.writer_index
  pub in_range : b.writer_index ≤ length b.buffer
  pub small : length b.buffer ≤ max_size
  pub spare : cheap_prepend ≤ length b.buffer

-- The readable bytes.
abbrev pub content : Buffer → List ℕ
content b = slice b.buffer b.reader_index (b.writer_index - b.reader_index)

-- A valid buffer whose readable bytes are `xs`.
abbrev pub Holds : Buffer → List ℕ → Type 0
Holds b xs = IsValid b × (content b ≡ xs)

-- The vector split in three.
pub record Shape (b : Buffer) (xs : List ℕ) : Type 0 where
  pub front : List ℕ
  pub back : List ℕ
  pub layout : b.buffer ≡ front ++ (xs ++ back)
  pub reader : b.reader_index ≡ length front
  pub writer : b.writer_index ≡ length front + length xs
  pub small : length b.buffer ≤ max_size
  pub spare : cheap_prepend ≤ length b.buffer

pub Shape-length :
    {b : Buffer} {xs : List ℕ} (s : Shape b xs)
    → length b.buffer ≡ length s.front + length xs + length s.back
Shape-length {b} {xs} s =
    omega (arith, ap length s.layout, length-append s.front (xs ++ s.back), length-append xs s.back)

pub Shape-Holds : {b : Buffer} {xs : List ℕ} → Shape b xs → Holds b xs
Shape-Holds {b} {xs} s = (
  record {
    ordered = omega (arith, s.reader, s.writer);
    in_range = omega (arith, s.writer, Shape-length s);
    small = s.small;
    spare = s.spare;
  },
  ap (λ bytes. slice bytes b.reader_index (b.writer_index - b.reader_index)) s.layout
      ∙ slice-append s.front xs s.back b.reader_index (b.writer_index - b.reader_index) s.reader
          (omega (arith, s.reader, s.writer)),
)

-- Writing `xs` at an index of a vector where it fits lays it out there.
pub splice-Shape :
    (bytes : List ℕ) (i : ℕ) (xs : List ℕ)
    → i + length xs ≤ length bytes
    → length bytes ≤ max_size
    → cheap_prepend ≤ length bytes
    → (w : ℕ) → w ≡ i + length xs
    → Shape (record { buffer = splice bytes i xs; reader_index = i; writer_index = w }) xs
splice-Shape bytes i xs fits small spare w e = record {
  front = take i bytes;
  back = drop (i + length xs) bytes;
  layout = refl;
  reader = omega (arith, length-take i bytes);
  writer = omega (arith, length-take i bytes);
  small = omega (arith, length-splice bytes i xs fits);
  spare = omega (arith, length-splice bytes i xs fits);
}

pub Holds-Shape : {b : Buffer} {xs : List ℕ} → Holds b xs → Shape b xs
Holds-Shape {b} {xs} (v, e) = record {
  front = take b.reader_index b.buffer;
  back = drop (b.writer_index - b.reader_index) (drop b.reader_index b.buffer);
  layout = sym (
      ap
        (λ ys.
          take b.reader_index b.buffer
          ++ (ys ++ drop (b.writer_index - b.reader_index) (drop b.reader_index b.buffer)))
        (sym e)
      ∙ ap (◌++◌ (take b.reader_index b.buffer))
          (take-append-drop (b.writer_index - b.reader_index) (drop b.reader_index b.buffer))
      ∙ take-append-drop b.reader_index b.buffer);
  reader = omega (arith, v.ordered, v.in_range, length-take b.reader_index b.buffer);
  writer = omega (
    arith,
    v.ordered,
    v.in_range,
    length-take b.reader_index b.buffer,
    ap length e,
    length-slice b.buffer b.reader_index (b.writer_index - b.reader_index)
        (omega (arith, v.ordered, v.in_range)),
  );
  small = v.small;
  spare = v.spare;
}

pub Shape-readable : {b : Buffer} {xs : List ℕ} → Shape b xs → readable_bytes b ≡ length xs
Shape-readable {b} {xs} s = omega (arith, s.reader, s.writer, s.small, Shape-length s)

pub Shape-writable : {b : Buffer} {xs : List ℕ} (s : Shape b xs) → writable_bytes b ≡ length s.back
Shape-writable {b} {xs} s = omega (arith, s.reader, s.writer, s.small, Shape-length s)

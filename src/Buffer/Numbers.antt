-- ===== src/Buffer/Numbers.antt =====
-- The integers of muduo/net/Buffer.h in network byte order (muduo/net/Endian.h). An integer is its
-- bit pattern, a number below 2^32, 2^16 or 2^8; `k` counts bytes.
use muduo_pro.Common.{
  ℕ, zero, suc, ◌+◌, ◌*◌, ◌/◌, ◌%◌, ◌^◌, ◌≤◌, ◌<◌, ◌≡◌, refl, ap, subst, Option, some, List, [],
  ◌∷◌, ◌++◌, append-nil, append_assoc, arith, leb, le→leb, ◌>>=◌, ◌>>◌, guard, length, take-append,
  drop-append, length-append,
}
use muduo_pro.Buffer.{
  Buffer, readable_bytes, prependable_bytes, bytes_at, retrieve, append, prepend,
}
use muduo_pro.Buffer.Shape.{max_size, Holds, Shape, Holds-Shape, Shape-Holds, Shape-readable}
use muduo_pro.Buffer.Retrieve.{retrieve-Shape, bytes_at-Shape}
use muduo_pro.Buffer.Write.{append-Shape, prepend-Shape}

-- The `k` low bytes of `x`, the highest first: what `htobe` leaves in memory.
unfoldable pub to_network : ℕ → ℕ → List ℕ
to_network zero x = []
to_network (suc k) x = (x / 256 ^ k % 256) ∷ to_network k x

unfoldable pub from_network : ℕ → List ℕ → ℕ
from_network acc [] = acc
from_network acc (c ∷ cs) = from_network (acc * 256 + c) cs

unfoldable pub append_int : ℕ → Buffer → ℕ → Option Buffer
append_int k b x = append b (to_network k x)

unfoldable pub peek_int : ℕ → Buffer → Option ℕ
peek_int k b = do
  guard (leb k (readable_bytes b))
  bytes ← bytes_at b.buffer b.reader_index k
  some (from_network 0 bytes)

unfoldable pub read_int : ℕ → Buffer → Option (ℕ × Buffer)
read_int k b = do result ← peek_int k b; b' ← retrieve b k; some (result, b')

unfoldable pub prepend_int : ℕ → Buffer → ℕ → Option Buffer
prepend_int k b x = prepend b (to_network k x)

abbrev pub append_int32 : Buffer → ℕ → Option Buffer
append_int32 = append_int 4

abbrev pub append_int16 : Buffer → ℕ → Option Buffer
append_int16 = append_int 2

abbrev pub append_int8 : Buffer → ℕ → Option Buffer
append_int8 = append_int 1

abbrev pub peek_int32 : Buffer → Option ℕ
peek_int32 = peek_int 4

abbrev pub peek_int16 : Buffer → Option ℕ
peek_int16 = peek_int 2

abbrev pub peek_int8 : Buffer → Option ℕ
peek_int8 = peek_int 1

abbrev pub read_int32 : Buffer → Option (ℕ × Buffer)
read_int32 = read_int 4

abbrev pub read_int16 : Buffer → Option (ℕ × Buffer)
read_int16 = read_int 2

abbrev pub read_int8 : Buffer → Option (ℕ × Buffer)
read_int8 = read_int 1

abbrev pub prepend_int32 : Buffer → ℕ → Option Buffer
prepend_int32 = prepend_int 4

abbrev pub prepend_int16 : Buffer → ℕ → Option Buffer
prepend_int16 = prepend_int 2

abbrev pub prepend_int8 : Buffer → ℕ → Option Buffer
prepend_int8 = prepend_int 1

pub length-to_network : (k x : ℕ) → length (to_network k x) ≡ k
unfolding to_network
length-to_network zero x = refl
length-to_network (suc k) x = ap suc (length-to_network k x)

pub from_network-to_network32 : (x : ℕ) → x < 2 ^ 32 → from_network 0 (to_network 4 x) ≡ x
unfolding to_network from_network
from_network-to_network32 x h = omega arith

from_network-to_network16 : (x : ℕ) → x < 2 ^ 16 → from_network 0 (to_network 2 x) ≡ x
unfolding to_network from_network
from_network-to_network16 x h = omega arith

from_network-to_network8 : (x : ℕ) → x < 2 ^ 8 → from_network 0 (to_network 1 x) ≡ x
unfolding to_network from_network
from_network-to_network8 x h = omega arith

-- Reading `k` bytes that are the encoding of a number at the front of the content.
read_int-Shape :
    {b : Buffer} {ys : List ℕ} (k x : ℕ)
    → Shape b (to_network k x ++ ys)
    → from_network 0 (to_network k x) ≡ x
    → (b' : Buffer) × (read_int k b ≡ some (x, b')) × Shape b' ys
unfolding read_int peek_int
read_int-Shape {b} {ys} k x s back =
    let (b', e, s') = retrieve-Shape k s enough in
    (
      b',
      rw
          (
            le→leb k (readable_bytes b) (omega (arith, enough, Shape-readable s)),
            bytes_at-Shape k s enough,
            take-append k (to_network k x) ys width,
            back,
            e,
          )
          refl,
      subst (Shape b') (drop-append k (to_network k x) ys width) s',
    )
  where
    width : k ≡ length (to_network k x)
    width = omega (arith, length-to_network k x)

    enough : k ≤ length (to_network k x ++ ys)
    enough = omega (arith, length-to_network k x, length-append (to_network k x) ys)

-- A 32-bit number that is prepended is what the next read returns, and the content behind it is
-- left as it was.
pub read_int32-prepend_int32 :
    {b : Buffer} {xs : List ℕ} (x : ℕ)
    → Holds b xs
    → 4 ≤ prependable_bytes b
    → x < 2 ^ 32
    → (b₁ b₂ : Buffer) × (prepend_int32 b x ≡ some b₁)
      × (read_int32 b₁ ≡ some (x, b₂))
      × Holds b₂ xs
unfolding prepend_int
read_int32-prepend_int32 x h room small =
    let (b₁, e₁, s₁) =
      prepend-Shape (to_network 4 x) (Holds-Shape h) (omega (arith, room, length-to_network 4 x)) in
    let (b₂, e₂, s₂) = read_int-Shape 4 x s₁ (from_network-to_network32 x small) in
    (b₁, b₂, e₁, e₂, Shape-Holds s₂)

-- Writes a 32-bit, a 16-bit and an 8-bit number behind the content.
abbrev pub append_three : Buffer → ℕ → ℕ → ℕ → Option Buffer
append_three b x y z = do b₁ ← append_int32 b x; b₂ ← append_int16 b₁ y; append_int8 b₂ z

-- Reads a 32-bit, a 16-bit and an 8-bit number.
abbrev pub read_three : Buffer → Option (ℕ × ℕ × ℕ × Buffer)
read_three b = do
  (x, b₁) ← read_int32 b
  (y, b₂) ← read_int16 b₁
  (z, b₃) ← read_int8 b₂
  some (x, y, z, b₃)

append_three-Shape :
    {b : Buffer} (x y z : ℕ)
    → Shape b []
    → length b.buffer + 7 ≤ max_size
    → (b' : Buffer) × (append_three b x y z ≡ some b')
      × Shape b' (to_network 4 x ++ (to_network 2 y ++ to_network 1 z))
unfolding append_int
append_three-Shape x y z s small =
    let (b₁, e₁, s₁, l₁) =
      append-Shape (to_network 4 x) s (omega (arith, small, length-to_network 4 x)) in
    let (b₂, e₂, s₂, l₂) =
      append-Shape (to_network 2 y) s₁
        (omega (arith, small, l₁, length-to_network 4 x, length-to_network 2 y)) in
    let (b₃, e₃, s₃, l₃) = append-Shape (to_network 1 z) s₂ (
      omega (
        arith,
        small,
        l₁,
        l₂,
        length-to_network 4 x,
        length-to_network 2 y,
        length-to_network 1 z,
      )) in
    (
      b₃,
      rw (e₁, e₂, e₃) refl,
      rw (← append_assoc (to_network 4 x) (to_network 2 y) (to_network 1 z)) s₃,
    )

-- Numbers of 32, 16 and 8 bits that are appended to an empty buffer are read back in order, and the
-- buffer is empty again.
pub read_three-append_three :
    {b : Buffer} (x y z : ℕ)
    → Holds b []
    → length b.buffer + 7 ≤ max_size
    → x < 2 ^ 32
    → y < 2 ^ 16
    → z < 2 ^ 8
    → (b₁ b₂ : Buffer) × (append_three b x y z ≡ some b₁)
      × (read_three b₁ ≡ some (x, y, z, b₂))
      × Holds b₂ []
read_three-append_three x y z h small hx hy hz =
    let (b₁, e, s) = append_three-Shape x y z (Holds-Shape h) small in
    let (b₂, e₂, s₂) = read_int-Shape 4 x s (from_network-to_network32 x hx) in
    let (b₃, e₃, s₃) = read_int-Shape 2 y s₂ (from_network-to_network16 y hy) in
    let (b₄, e₄, s₄) =
      read_int-Shape {b = b₃} {ys = []} 1 z (rw append-nil s₃) (from_network-to_network8 z hz) in
    (b₁, b₄, e, rw (e₂, e₃, e₄) refl, Shape-Holds s₄)

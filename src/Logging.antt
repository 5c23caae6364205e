-- ===== src/Logging.antt =====
-- muduo/base/LogStream.h and LogStream.cc: the fixed buffer of a log line and the operators that
-- write to it. `none` is a write outside of the array, or a conversion that does not end.
pub mod Digits
pub mod Format
mod Tests
use muduo_pro.Common.{
  ℤ, pos, negsuc, quotient_by, remainder_by, is_negative, ℕ, zero, suc, ◌+◌, ◌-◌, ◌/◌, ◌%◌, Bool,
  true, false, Option, none, some, List, [], ◌∷◌, ◌++◌, ltb, leb, if◌then◌else◌, ◌>>=◌, ◌>>◌, guard,
  length, get_elem?, splice, take, replicate, codes, ◌==◌,
}

-- `i / 10` and `i % 10`, toward zero.
abbrev pub quotient : ℤ → ℤ
quotient = quotient_by 10

abbrev pub remainder : ℤ → ℤ
remainder = remainder_by 10

abbrev pub is_zero : ℤ → Bool
is_zero (pos zero) = true
is_zero _ = false

abbrev pub digits : List ℕ
digits = codes "9876543210123456789"

-- `zero[lsd]`, where `zero` is `digits + 9`.
abbrev pub digit_at : ℤ → Option ℕ
digit_at (pos d) = get_elem? digits (9 + d)
digit_at (negsuc d) = get_elem? digits (9 - suc d)

-- `std::reverse`, onto what follows.
abbrev pub reverse_onto : List ℕ → List ℕ → List ℕ
reverse_onto [] acc = acc
reverse_onto (x ∷ xs) acc = reverse_onto xs (x ∷ acc)

-- The do-while loop of `convert`, at most so many rounds: the bytes in the order written.
unfoldable pub convert_loop : ℕ → ℤ → Option (List ℕ)
convert_loop zero i = none
convert_loop (suc rounds) i = do
  c ← digit_at (remainder i)
  rest ← (if is_zero (quotient i) then some [] else convert_loop rounds (quotient i))
  some (c ∷ rest)

-- The text of a number; the code returns its length, and writes it and a NUL.
unfoldable pub convert : ℤ → Option (List ℕ)
convert value = do
  bytes ← convert_loop 20 value
  some (reverse_onto (bytes ++ (if is_negative value then b'-' ∷ [] else [])) [])

abbrev pub digits_hex : List ℕ
digits_hex = codes "0123456789ABCDEF"

unfoldable pub convert_hex_loop : ℕ → ℕ → Option (List ℕ)
convert_hex_loop zero i = none
convert_hex_loop (suc rounds) i = do
  c ← get_elem? digits_hex (i % 16)
  rest ← (if i / 16 == 0 then some [] else convert_hex_loop rounds (i / 16))
  some (c ∷ rest)

unfoldable pub convert_hex : ℕ → Option (List ℕ)
convert_hex value = do bytes ← convert_hex_loop 16 value; some (reverse_onto bytes [])

-- The array data_ and the index of cur_ in it.
pub record FixedBuffer : Type 0 where
  pub bytes : List ℕ
  pub cur : ℕ

abbrev pub avail : FixedBuffer → ℕ
avail b = length b.bytes - b.cur

-- The bytes written so far.
abbrev pub contents : FixedBuffer → List ℕ
contents b = take b.cur b.bytes

-- A write of bytes at cur_, without a move of it.
unfoldable pub write_at_cur : List ℕ → FixedBuffer → Option FixedBuffer
write_at_cur text b = do
  guard (leb (b.cur + length text) (length b.bytes))
  some (record b { bytes = splice b.bytes b.cur text })

unfoldable pub append : List ℕ → FixedBuffer → Option FixedBuffer
append text b =
    if ltb (length text) (avail b)
    then (do b' ← write_at_cur text b; some (record b' { cur = b.cur + length text }))
    else some b

abbrev pub max_numeric_size : ℕ
max_numeric_size = 32

-- With the NUL at its end.
unfoldable pub format_integer : ℤ → FixedBuffer → Option FixedBuffer
format_integer v b =
    if leb max_numeric_size (avail b)
    then (do
      text ← convert v
      b' ← write_at_cur (text ++ (0 ∷ [])) b
      some (record b' { cur = b.cur + length text }))
    else some b

-- `operator<<(const void *)`.
unfoldable pub put_pointer : ℕ → FixedBuffer → Option FixedBuffer
put_pointer p b =
    if leb max_numeric_size (avail b)
    then (do
      text ← convert_hex p
      b' ← write_at_cur (codes "0x" ++ (text ++ (0 ∷ []))) b
      some (record b' { cur = b.cur + (length text + 2) }))
    else some b

-- What is put to the stream: the operators by the type of their argument.
pub data Item : Type 0 where
  of_bool : Bool → Item
  of_char : ℕ → Item
  of_text : List ℕ → Item
  of_integer : ℤ → Item
  of_pointer : ℕ → Item

unfoldable pub put : Item → FixedBuffer → Option FixedBuffer
put (of_bool v) b = append (if v then codes "1" else codes "0") b
put (of_char c) b = append (c ∷ []) b
put (of_text s) b = append s b
put (of_integer v) b = format_integer v b
put (of_pointer p) b = put_pointer p b

unfoldable pub put_all : List Item → FixedBuffer → Option FixedBuffer
put_all [] b = some b
put_all (item ∷ items) b = do b' ← put item b; put_all items b'

-- ===== src/Logging/Format.antt =====
-- A log line: what is put to it arrives whole or not at all, and nothing is written outside of its
-- array.
use muduo_pro.Common.{
  ℤ, ℕ, ◌+◌, ◌^◌, ◌<◌, ◌≤◌, ◌≡◌, refl, sym, ap, ◌∙◌, inl, inr, Bool, true, false, Option, none,
  some, List, [], ◌∷◌, ◌++◌, append-nil, append_assoc, arith, ltb, leb, ltb→lt, lt→ltb, leb→le,
  le→leb, if◌then◌else◌, Bool-cases, length, length-append, codes, decimal, take, drop, splice,
  length-take, length-splice, take-append, take-append_le, take-append_plus, take_all,
}
use muduo_pro.Logging.{
  FixedBuffer, avail, contents, write_at_cur, append, max_numeric_size, format_integer, put_pointer,
  Item, of_bool, of_char, of_text, of_integer, of_pointer, put, put_all, convert_hex,
}
use muduo_pro.Logging.Digits.{magnitude, sign, convert_lem, convert_hex_lem}

abbrev pub IsValid : FixedBuffer → Type 0
IsValid b = b.cur ≤ length b.bytes

-- What the buffer is after a write of which the first `k` bytes count.
written :
    (b : FixedBuffer) (text : List ℕ) (k : ℕ)
    → IsValid b
    → b.cur + length text ≤ length b.bytes
    → k ≤ length text
    → (b' : FixedBuffer) × (write_at_cur text b ≡ some b')
      × (b'.cur ≡ b.cur)
      × (length b'.bytes ≡ length b.bytes)
      × (take (b.cur + k) b'.bytes ≡ contents b ++ take k text)
unfolding write_at_cur
written b text k v fits le = (
  record b { bytes = splice b.bytes b.cur text },
  rw (le→leb _ _ fits) refl,
  refl,
  length-splice b.bytes b.cur text fits,
  take-append_plus b.cur k (take b.cur b.bytes) (text ++ drop (b.cur + length text) b.bytes)
        (omega (arith, length-take b.cur b.bytes, v))
      ∙ ap (λ zs. contents b ++ zs) (take-append_le k text (drop (b.cur + length text) b.bytes) le),
)

abbrev pub Puts : FixedBuffer → List ℕ → Option FixedBuffer → Type 0
Puts b text result =
    (b' : FixedBuffer) × (result ≡ some b')
    × IsValid b'
    × (length b'.bytes ≡ length b.bytes)
    × (contents b' ≡ contents b ++ text)

unchanged : (b : FixedBuffer) → IsValid b → Puts b [] (some b)
unchanged b v = (b, refl, v, refl, sym (append-nil (contents b)))

pub append-Puts :
    (text : List ℕ) (b : FixedBuffer)
    → IsValid b
    → Puts b (if ltb (length text) (avail b) then text else []) (append text b)
unfolding append
append-Puts text b v = elim (Bool-cases (ltb (length text) (avail b))) [
  | inr full ↦ rw full (unchanged b v)
  | inl room ↦
      let fits : b.cur + length text ≤ length b.bytes = omega (arith, ltb→lt _ _ room) in
      let (b₁, e, at, len, wrote) = written b text (length text) v fits (omega arith) in
      rw room (
        record b₁ { cur = b.cur + length text },
        rw e refl,
        omega (arith, fits, len),
        len,
        wrote ∙ ap (λ zs. contents b ++ zs) (take_all (length text) text (omega arith)),
      )
]

format_integer-Puts :
    (z : ℤ) (b : FixedBuffer)
    → IsValid b
    → magnitude z < 2 ^ 64
    → Puts b
        (if leb max_numeric_size (avail b) then sign z ++ decimal (magnitude z) else [])
        (format_integer z b)
unfolding format_integer
format_integer-Puts z b v small = elim (Bool-cases (leb max_numeric_size (avail b))) [
  | inr full ↦ rw full (unchanged b v)
  | inl room ↦
      let (e, short) = convert_lem z small in
      let text : List ℕ = sign z ++ decimal (magnitude z) in
      let fits : b.cur + length (text ++ (0 ∷ [])) ≤ length b.bytes =
        omega (arith, leb→le _ _ room, short, length-append text (0 ∷ [])) in
      let (b₁, e₁, at, len, wrote) =
        written b (text ++ (0 ∷ [])) (length text) v fits
          (omega (arith, length-append text (0 ∷ []))) in
      rw room (
        record b₁ { cur = b.cur + length text },
        rw (e, e₁) refl,
        omega (arith, leb→le _ _ room, short, len),
        len,
        wrote ∙ ap (λ zs. contents b ++ zs) (take-append (length text) text (0 ∷ []) refl),
      )
]

-- What an address is printed as.
unfoldable pub pointer_text : ℕ → List ℕ
pointer_text p = elim (convert_hex p) [ none ↦ [] | some ds ↦ codes "0x" ++ ds ]

pointer_text-some :
    (p : ℕ) (ds : List ℕ) → convert_hex p ≡ some ds → pointer_text p ≡ codes "0x" ++ ds
unfolding pointer_text
pointer_text-some p ds e = rw (pointer_text, e) refl

put_pointer-Puts :
    (p : ℕ) (b : FixedBuffer)
    → IsValid b
    → p < 2 ^ 64
    → Puts b (if leb max_numeric_size (avail b) then pointer_text p else []) (put_pointer p b)
unfolding put_pointer
put_pointer-Puts p b v small = elim (Bool-cases (leb max_numeric_size (avail b))) [
  | inr full ↦ rw full (unchanged b v)
  | inl room ↦
      let (ds, e, short) = convert_hex_lem p small in
      let text : List ℕ = codes "0x" ++ (ds ++ (0 ∷ [])) in
      let len_text : length text ≡ length ds + 3 = omega (arith, length-append ds (0 ∷ [])) in
      let fits : b.cur + length text ≤ length b.bytes =
        omega (arith, leb→le _ _ room, short, len_text) in
      let (b₁, e₁, at, len, wrote) =
        written b text (length ds + 2) v fits (omega (arith, len_text)) in
      rw room (
        record b₁ { cur = b.cur + (length ds + 2) },
        rw (e, e₁) refl,
        omega (arith, leb→le _ _ room, short, len),
        len,
        wrote
            ∙ ap (λ zs. contents b ++ zs)
                (take-append (length ds + 2) (codes "0x" ++ ds) (0 ∷ []) (omega arith)
                  ∙ sym (pointer_text-some p ds e)),
      )
]

-- The text of an item, the room that it needs, and the numbers that fit their types.
abbrev pub text_of : Item → List ℕ
text_of (of_bool v) = if v then codes "1" else codes "0"
text_of (of_char c) = c ∷ []
text_of (of_text s) = s
text_of (of_integer z) = sign z ++ decimal (magnitude z)
text_of (of_pointer p) = pointer_text p

abbrev pub has_room : Item → FixedBuffer → Bool
has_room (of_bool v) b = ltb 1 (avail b)
has_room (of_char c) b = ltb 1 (avail b)
has_room (of_text s) b = ltb (length s) (avail b)
has_room (of_integer z) b = leb max_numeric_size (avail b)
has_room (of_pointer p) b = leb max_numeric_size (avail b)

abbrev pub Fits64 : Item → Type 0
Fits64 (of_integer z) = magnitude z < 2 ^ 64
Fits64 (of_pointer p) = p < 2 ^ 64
Fits64 _ = 0 ≤ 0

-- An operator of the stream appends the text of its argument to the line, or nothing where the room
-- does not suffice, and writes nothing outside of the array, for any argument of its type.
pub put_lem :
    (item : Item) (b : FixedBuffer)
    → IsValid b
    → Fits64 item
    → (b' : FixedBuffer) × (put item b ≡ some b')
      × IsValid b'
      × (length b'.bytes ≡ length b.bytes)
      × (contents b' ≡ contents b ++ (if has_room item b then text_of item else []))
unfolding put
put_lem (of_bool true) b v small = append-Puts (codes "1") b v
put_lem (of_bool false) b v small = append-Puts (codes "0") b v
put_lem (of_char c) b v small = append-Puts (c ∷ []) b v
put_lem (of_text s) b v small = append-Puts s b v
put_lem (of_integer z) b v small = format_integer-Puts z b v small
put_lem (of_pointer p) b v small = put_pointer-Puts p b v small

abbrev pub AllFit : List Item → Type 0
AllFit [] = Unit {0}
AllFit (item ∷ items) = Fits64 item × AllFit items

-- The items of a log line that fit one after the other.
abbrev pub texts : List Item → List ℕ
texts [] = []
texts (item ∷ items) = text_of item ++ texts items

cur-contents : (b : FixedBuffer) → IsValid b → length (contents b) ≡ b.cur
cur-contents b v = omega (arith, length-take b.cur b.bytes, v)

has_room-enough :
    (item : Item) (b : FixedBuffer) → length (text_of item) + 32 ≤ avail b → has_room item b ≡ true
has_room-enough (of_bool v) b h = lt→ltb _ _ (omega arith)
has_room-enough (of_char c) b h = lt→ltb _ _ (omega arith)
has_room-enough (of_text s) b h = lt→ltb _ _ (omega arith)
has_room-enough (of_integer z) b h = le→leb _ _ (omega arith)
has_room-enough (of_pointer p) b h = le→leb _ _ (omega arith)

-- A log line of any length stays within its array and keeps what it held; if 32 bytes more than all
-- texts together are free, it holds all of them in order.
pub put_all_lem :
    (items : List Item) (b : FixedBuffer)
    → IsValid b
    → AllFit items
    → (b' : FixedBuffer) × (rest : List ℕ) × (put_all items b ≡ some b')
      × IsValid b'
      × (contents b' ≡ contents b ++ rest)
      × (length (texts items) + 32 ≤ avail b → rest ≡ texts items)
unfolding put_all
put_all_lem [] b v fit = (b, [], refl, v, sym (append-nil (contents b)), λ h. refl)
put_all_lem (item ∷ items) b v (f, fit) =
    let (b₁, e₁, v₁, len₁, c₁) = put_lem item b v f in
    let (b₂, rest, e₂, v₂, c₂, all) = put_all_lem items b₁ v₁ fit in
    (
      b₂,
      (if has_room item b then text_of item else []) ++ rest,
      rw e₁ e₂,
      v₂,
      c₂ ∙ ap (λ zs. zs ++ rest) c₁ ∙ append_assoc (contents b) _ rest,
      λ h.
          let room : has_room item b ≡ true =
            has_room-enough item b (omega (arith, h, length-append (text_of item) (texts items))) in
          let c₃ : contents b₁ ≡ contents b ++ text_of item =
            c₁ ∙ ap (λ t. contents b ++ (if t then text_of item else [])) room in
          let left : length (texts items) + 32 ≤ avail b₁ = omega (
            arith,
            h,
            cur-contents b v,
            cur-contents b₁ v₁,
            len₁,
            ap length c₃,
            length-append (contents b) (text_of item),
            length-append (text_of item) (texts items),
          ) in
          rw (room, all left) refl,
    )

-- ===== src/Rpc/Stream.antt =====
-- What `onMessage` makes of the bytes of a connection.
use muduo_pro.Common.{
  ℕ, zero, suc, ◌+◌, ◌-◌, ◌*◌, ◌^◌, ◌<◌, ◌≤◌, ◌≡◌, ◌⊎◌, inl, inr, refl, ap, subst, ◌∙◌, true, false,
  some, List, [], ◌∷◌, ◌++◌, map, append_assoc, replicate, arith, take, drop, length, length-append,
  take-append, drop-append, length-take, le→leb, lt→leb, le→ltb, lt→ltb, leb, drop-append_more,
  take-append_plus, Bool-cases, leb→le, leb_false→lt,
}
use muduo_pro.Buffer.{Buffer, readable_bytes}
use muduo_pro.Buffer.Shape.{Shape, Shape-readable, Holds, Holds-Shape, Shape-Holds}
use muduo_pro.Buffer.Retrieve.{retrieve-Shape, bytes_at-Shape}
use muduo_pro.Buffer.Numbers.{
  to_network, length-to_network, from_network-to_network32, peek_int, peek_int32,
}
use muduo_pro.Rpc.{
  Libraries, ErrorCode, invalid_length, max_message_len, min_message_len, is_invalid_length,
  message_callback, breaks, goes_on, fail, receive, round, on_message, ended, more_rounds, after,
  error_callback,
}
use muduo_pro.Rpc.Frames.{body, frame, length-body, parse-body}

peek_int32-Shape :
    {b : Buffer} (ys : List ℕ) (x : ℕ)
    → Shape b (to_network 4 x ++ ys)
    → x < 2 ^ 32
    → peek_int32 b ≡ some x
unfolding peek_int
peek_int32-Shape {b} ys x s small =
    let enough : 4 ≤ length (to_network 4 x ++ ys) =
      omega (arith, length-to_network 4 x, length-append (to_network 4 x) ys) in
    rw
      (
        le→leb 4 (readable_bytes b) (omega (arith, enough, Shape-readable s)),
        bytes_at-Shape 4 s enough,
        take-append 4 (to_network 4 x) ys (omega (arith, length-to_network 4 x)),
        from_network-to_network32 x small,
      )
      refl

length-frame_on : (x : ℕ) (ys : List ℕ) → length (to_network 4 x ++ ys) ≡ 4 + length ys
length-frame_on x ys = omega (arith, length-append (to_network 4 x) ys, length-to_network 4 x)

valid_length : (len : ℕ) → 8 ≤ len → len ≤ max_message_len → is_invalid_length len ≡ false
valid_length len low high =
    rw
      (
        le→ltb max_message_len len high,
        lt→leb (2 ^ 31) len (omega (arith, high)),
        le→ltb len min_message_len low,
      )
      refl

drop-take : (x len : ℕ) (ys : List ℕ) → drop 4 (take (4 + len) (to_network 4 x ++ ys)) ≡ take len ys
unfolding to_network
drop-take x len ys = ap (λ n. drop 4 (take n (to_network 4 x ++ ys))) (four len)
  where
    four : (len : ℕ) → 4 + len ≡ suc (suc (suc (suc len)))
    four len = omega arith

module _ (libs : Libraries) where
  -- The first bytes of a frame, not all.
  pub data IsPart : List ℕ → Type 0 where
    part :
        (bytes : List ℕ) (n : ℕ)
        → 8 + length bytes ≤ max_message_len
        → n < 12 + length bytes
        → IsPart (take n (frame libs bytes))

  -- Bytes that fit a frame and that protobuf accepts, with their messages.
  pub data Accepts : List (List ℕ) → List (libs.RpcMessage) → Type 0 where
    nothing : Accepts [] []
    accept :
        {more : List (List ℕ)} {ms : List (libs.RpcMessage)} (bytes : List ℕ) (m : libs.RpcMessage)
        → 8 + length bytes ≤ max_message_len
        → libs.parse_from_array bytes ≡ some m
        → Accepts more ms
        → Accepts (bytes ∷ more) (m ∷ ms)

  abbrev pub frames : List (List ℕ) → List ℕ → List ℕ
  frames [] rest = rest
  frames (bytes ∷ more) rest = frame libs bytes ++ frames more rest

module _ (libs : Libraries) (on_error : ErrorCode → Buffer → Buffer) where
  -- A whole frame whose bytes protobuf accepts is delivered and taken from the buffer.
  round-frame :
      {b : Buffer} {rest : List ℕ} (bytes : List ℕ) (m : libs.RpcMessage)
      → Shape b (frame libs bytes ++ rest)
      → 8 + length bytes ≤ max_message_len
      → libs.parse_from_array bytes ≡ some m
      → (b' : Buffer) × (round libs on_error b ≡ some (goes_on (message_callback m) b'))
        × Shape b' rest
  unfolding round receive
  round-frame {b} {rest} bytes m s high accepted =
      let len : ℕ = 8 + length bytes in
      let s₁ : Shape b (to_network 4 len ++ (body libs bytes ++ rest)) =
        subst (Shape b) (append_assoc (to_network 4 len) (body libs bytes) rest) s in
      let size : readable_bytes b ≡ 4 + (8 + length bytes) + length rest = omega (
        arith,
        Shape-readable s₁,
        length-frame_on len (body libs bytes ++ rest),
        length-append (body libs bytes) rest,
        length-body libs bytes,
      ) in
      let enough : 4 + (8 + length bytes) ≤ length (to_network 4 len ++ (body libs bytes ++ rest)) =
        omega (arith, size, Shape-readable s₁) in
      let (b', e, s') = retrieve-Shape (4 + (8 + length bytes)) s₁ enough in
      (
        b',
        rw
            (
              le→leb (2 * 4 + 4) (readable_bytes b) (omega (arith, size)),
              peek_int32-Shape (body libs bytes ++ rest) (8 + length bytes) s₁
                  (omega (arith, high)),
              valid_length (8 + length bytes) (omega arith) high,
              le→leb (8 + length bytes + 4) (readable_bytes b) (omega (arith, size)),
              bytes_at-Shape (4 + (8 + length bytes)) s₁ enough,
              drop-take (8 + length bytes) (8 + length bytes) (body libs bytes ++ rest),
              take-append (8 + length bytes) (body libs bytes) rest
                  (omega (arith, length-body libs bytes)),
              parse-body libs bytes,
              accepted,
              e,
            )
            refl,
        subst (Shape b')
            (drop-append_more 4 (8 + length bytes) (to_network 4 len) (body libs bytes ++ rest)
                (omega (arith, length-to_network 4 len))
              ∙ drop-append (8 + length bytes) (body libs bytes) rest
                  (omega (arith, length-body libs bytes)))
            s',
      )

  -- Such bytes stay in the buffer.
  round-part :
      {b : Buffer} {rest : List ℕ}
      → IsPart libs rest
      → Shape b rest
      → round libs on_error b ≡ some breaks
  unfolding round receive
  round-part {b} (part bytes n high less) s = elim (Bool-cases (leb 12 n)) [
    | inr few ↦
        rw
          (lt→leb (2 * 4 + 4) (readable_bytes b) (
            omega
              (arith, Shape-readable s, leb_false→lt 12 n few, length-take n (frame libs bytes))))
          refl
    | inl header ↦
        let len : ℕ = 8 + length bytes in
        let shown : take n (frame libs bytes) ≡ to_network 4 len ++ take (n - 4) (body libs bytes) =
          ap (λ k. take k (frame libs bytes)) (omega (arith, leb→le 12 n header))
          ∙ take-append_plus 4 (n - 4) (to_network 4 len) (body libs bytes)
              (omega (arith, length-to_network 4 len)) in
        let s₁ : Shape b (to_network 4 len ++ take (n - 4) (body libs bytes)) =
          subst (Shape b) shown s in
        let size : readable_bytes b ≡ n = omega (
          arith,
          Shape-readable s₁,
          length-frame_on len (take (n - 4) (body libs bytes)),
          leb→le 12 n header,
          less,
          length-take (n - 4) (body libs bytes),
          length-body libs bytes,
        ) in
        rw
          (
            le→leb (2 * 4 + 4) (readable_bytes b) (omega (arith, size, leb→le 12 n header)),
            peek_int32-Shape (take (n - 4) (body libs bytes)) (8 + length bytes) s₁
                (omega (arith, high)),
            valid_length (8 + length bytes) (omega arith) high,
            lt→leb (8 + length bytes + 4) (readable_bytes b) (omega (arith, size, less)),
          )
          refl
  ]

  on_message-Shape :
      {rest : List ℕ} {all : List (List ℕ)} {ms : List (libs.RpcMessage)}
      → Accepts libs all ms
      → IsPart libs rest
      → (b : Buffer) → Shape b (frames libs all rest)
      → (b' : Buffer) × (on_message libs on_error (suc (length all)) b
          ≡ ended (map message_callback ms) b')
        × Shape b' rest
  unfolding on_message after
  on_message-Shape nothing p b s = (b, rw (round-part p s) refl, s)
  on_message-Shape (accept bytes m high accepted more) p b s =
      let (b₁, e₁, s₁) = round-frame bytes m s high accepted in
      let (b₂, e₂, s₂) = on_message-Shape more p b₁ s₁ in (b₂, rw (e₁, e₂) refl, s₂)

  -- If the buffer holds frames of at most 64M, whose bytes protobuf accepts, and then a part of one
  -- more, `onMessage` ends: it delivers their messages in order, reports no error, and leaves the
  -- part. One round more than there are frames is enough.
  pub on_message_lem :
      {b : Buffer} {rest : List ℕ} {all : List (List ℕ)} {ms : List (libs.RpcMessage)}
      → Accepts libs all ms
      → IsPart libs rest
      → Holds b (frames libs all rest)
      → (b' : Buffer) × (on_message libs on_error (suc (length all)) b
          ≡ ended (map message_callback ms) b')
        × Holds b' rest
  on_message_lem {b} a p h =
      let (b', e, s) = on_message-Shape a p b (Holds-Shape h) in (b', e, Shape-Holds s)

round-invalid :
    (libs : Libraries) (on_error : ErrorCode → Buffer → Buffer) {b : Buffer} (ys : List ℕ) (len : ℕ)
    → Shape b (to_network 4 len ++ ys)
    → 8 ≤ length ys
    → len < 2 ^ 32
    → (len < 8) ⊎ (max_message_len < len)
    → round libs on_error b ≡ some (fail libs on_error invalid_length b)
unfolding round
round-invalid libs on_error {b} ys len s enough small invalid =
    rw
      (
        le→leb (2 * 4 + 4) (readable_bytes b)
            (omega (arith, Shape-readable s, length-frame_on len ys, enough)),
        peek_int32-Shape ys len s small,
        elim invalid as (λ _. is_invalid_length len ≡ true) [
          | inl low ↦
              rw
                (
                  le→ltb max_message_len len (omega (arith, low)),
                  lt→leb (2 ^ 31) len (omega (arith, low)),
                  lt→ltb len 8 low,
                )
                refl
          | inr high ↦ rw (lt→ltb max_message_len len high) refl
        ],
      )
      refl

-- If the error callback leaves the buffer alone, as the default one does, a length out of range is
-- reported again and again: `onMessage` does not end in any number of rounds, and calls the callback
-- with kInvalidLength in every one.
pub on_message_stuck :
    (libs : Libraries) {b : Buffer} (ys : List ℕ) (len : ℕ)
    → Holds b (to_network 4 len ++ ys)
    → 8 ≤ length ys
    → len < 2 ^ 32
    → (len < 8) ⊎ (max_message_len < len)
    → (rounds : ℕ)
    → on_message libs (λ code b. b) rounds b
      ≡ more_rounds (replicate rounds (error_callback invalid_length)) b
unfolding on_message after
on_message_stuck libs ys len h enough small invalid zero = refl
on_message_stuck libs ys len h enough small invalid (suc rounds) =
    rw
      (
        round-invalid libs (λ code b. b) ys len (Holds-Shape h) enough small invalid,
        on_message_stuck libs ys len h enough small invalid rounds,
      )
      refl

-- ===== src/Connection/Output.antt =====
-- The output buffer of a connection: when it is valid, and what goes into it.
use muduo_pro.Common.{
  ℕ, ◌+◌, ◌-◌, ◌^◌, ◌≤◌, ◌<◌, ◌≡◌, refl, sym, ap, subst, ◌∙◌, inl, inr, Bool, true, false, not,
  ◌&&◌, ◌||◌, some, List, [], ◌++◌, drop_all, false≢true, append-nil, arith, length, drop,
  Bool-cases, leb, ltb, ◌==◌, le→leb, ltb→lt, ltb_false→le, length-drop, length-append, sub_size,
  if◌then◌else◌,
}
use muduo_pro.Buffer.Shape.{max_size, IsValid, Holds}
use muduo_pro.Buffer.Content.{append_lem}
use muduo_pro.Channel.{Channel, none_event, is_writing, enable_writing, update}
use muduo_pro.Connection.{
  TcpConnection, is_disconnected, WriteResult, wrote, write_failed, epipe, with_output,
  append_output, buffer_rest, writes_direct,
}

-- The input buffer is valid, the output buffer holds `xs`, and a write is awaited exactly when there
-- is something to write, as long as the connection is up. When it is down nothing is awaited.
pub record Valid (c : TcpConnection) (xs : List ℕ) : Type 0 where
  pub input : IsValid c.input_buffer
  pub output : Holds c.output_buffer xs
  pub idle : is_disconnected c.state ≡ false → is_writing c.channel ≡ false → length xs ≡ 0
  pub busy : is_writing c.channel ≡ true → 0 < length xs
  pub down : is_disconnected c.state ≡ true → c.channel.events ≡ none_event

-- What `sendInLoop` drops: all of it when the connection is down, or when the kernel says that the
-- other end is closed.
unfoldable pub is_lost : WriteResult → TcpConnection → Bool
is_lost r c =
    is_disconnected c.state
    || (writes_direct c && elim r [ wrote n ↦ false | write_failed errno ↦ errno == epipe ])

abbrev pub accepted : List ℕ → WriteResult → TcpConnection → List ℕ
accepted bytes r c = if is_lost r c then [] else bytes

-- The documented behaviour of `write`: it takes at most what it is given.
abbrev pub Fits : WriteResult → ℕ → Type 0
Fits (wrote n) len = n ≤ len
Fits (write_failed errno) len = 0 ≤ len

pub sub_size-le : (len n : ℕ) → len < 2 ^ 64 → n ≤ len → sub_size len n ≡ len - n
sub_size-le len n small le = ground arith

is_writing-if :
    (ch : Channel) → is_writing (if not (is_writing ch) then enable_writing ch else ch) ≡ true
unfolding enable_writing update
is_writing-if ch = elim (Bool-cases (is_writing ch)) [
  | inl on ↦ rw (on) refl
  | inr off ↦ rw (off) refl
]

append_output_lem :
    {c : TcpConnection} {xs : List ℕ} (bytes : List ℕ) (remaining : ℕ)
    → Valid c xs
    → is_disconnected c.state ≡ false
    → length c.output_buffer.buffer + length bytes ≤ max_size
    → 0 < length bytes
    → (c' : TcpConnection) × (append_output bytes remaining c ≡ some c')
      × Valid c' (xs ++ bytes)
      × (c'.wire ≡ c.wire)
unfolding append_output with_output
append_output_lem {c} {xs} bytes remaining v up small more =
    let (buf, e, h) = append_lem bytes v.output small in
    (
      with_output remaining buf c,
      rw e refl,
      record {
        input = v.input;
        output = h;
        idle = λ _ off. absurd (false≢true (sym off ∙ is_writing-if c.channel));
        busy = λ on. omega (arith, more, length-append xs bytes);
        down = λ d. absurd (false≢true (sym up ∙ d));
      },
      refl,
    )

pub buffer_rest_lem :
    {c : TcpConnection} {xs : List ℕ} (bytes : List ℕ) (n : ℕ)
    → Valid c xs
    → is_disconnected c.state ≡ false
    → length c.output_buffer.buffer + length bytes ≤ max_size
    → n ≤ length bytes
    → (c' : TcpConnection) × (buffer_rest bytes n false c ≡ some c')
      × Valid c' (xs ++ drop n bytes)
      × (c'.wire ≡ c.wire)
unfolding buffer_rest
buffer_rest_lem {c} {xs} bytes n v up small le =
    let remaining : ℕ = sub_size (length bytes) n in
    let steps : remaining ≡ length bytes - n =
      sub_size-le (length bytes) n (omega (arith, small)) le in
    let inside : leb remaining (length bytes) ≡ true = le→leb _ _ (omega (arith, steps)) in
    elim (Bool-cases (ltb 0 remaining)) [
      | inl more ↦
          let (c', e, v', w) =
            append_output_lem (drop n bytes) remaining v up
              (omega (arith, small, length-drop n bytes))
              (omega (arith, ltb→lt _ _ more, length-drop n bytes)) in
          (c', rw (inside, more, e) refl, v', w)
      | inr nothing ↦ (
        c,
        rw (inside, nothing) refl,
        subst (Valid c)
            (sym (
              ap (λ ys. xs ++ ys) (drop_all n bytes (omega (arith, ltb_false→le _ _ nothing)))
              ∙ append-nil xs))
            v,
        refl,
      )
    ]

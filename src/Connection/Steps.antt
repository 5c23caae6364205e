-- ===== src/Connection/Steps.antt =====
-- The other operations of a connection: `handleWrite`, which empties the output buffer, the way up
-- and down, and `shutdown`.
use muduo_pro.Common.{
  ℕ, ◌≤◌, ◌<◌, ◌≡◌, refl, sym, ap, subst, ◌∙◌, inl, inr, true, false, false≢true, some, List, [],
  ◌++◌, append_assoc, append-nil, arith, length, take, drop, drop_all, take_all, take-append-drop,
  Bool-cases, ltb, ◌==◌, lt→ltb, ltb→lt, ==_iff, length-drop, if◌then◌else◌,
}
use muduo_pro.Buffer.{Buffer}
use muduo_pro.Buffer.Shape.{IsValid, Holds, Holds-Shape, Shape-readable}
use muduo_pro.Buffer.Retrieve.{bytes_at-Shape}
use muduo_pro.Buffer.Content.{retrieve_lem}
use muduo_pro.Channel.{Channel, is_writing, enable_reading, disable_writing, update}
use muduo_pro.Connection.{
  TcpConnection, is_disconnected, is_disconnecting, WriteResult, wrote, write_failed, handle_write,
  output_drained, shutdown_in_loop,
}
use muduo_pro.Connection.Output.{Valid, Fits}

is_writing-disable_writing : (ch : Channel) → is_writing (disable_writing ch) ≡ false
unfolding disable_writing update
is_writing-disable_writing ch = elim (Bool-cases ch.events.pollout) [
  | inl on ↦ rw on refl
  | inr off ↦ rw off refl
]

pub is_writing-enable_reading : (ch : Channel) → is_writing (enable_reading ch) ≡ is_writing ch
unfolding enable_reading update
is_writing-enable_reading ch = elim (Bool-cases ch.events.pollout) [
  | inl on ↦ rw on refl
  | inr off ↦ rw off refl
]

pub output_drained-Valid :
    (c : TcpConnection)
    → IsValid c.input_buffer
    → Holds c.output_buffer []
    → is_disconnected c.state ≡ false
    → Valid (output_drained c) [] × ((output_drained c).wire ≡ c.wire)
unfolding output_drained shutdown_in_loop
output_drained-Valid c i h up = elim (Bool-cases (is_disconnecting c.state)) [
  | inl d ↦ rw d (
    record {
      input = i;
      output = h;
      idle = λ _ _. refl;
      busy = λ on. absurd (false≢true (sym (is_writing-disable_writing c.channel) ∙ on));
      down = λ d. absurd (false≢true (sym up ∙ d));
    },
    refl,
  )
  | inr d ↦ rw d (
    record {
      input = i;
      output = h;
      idle = λ _ _. refl;
      busy = λ on. absurd (false≢true (sym (is_writing-disable_writing c.channel) ∙ on));
      down = λ d. absurd (false≢true (sym up ∙ d));
    },
    refl,
  )
]

writing-up :
    {c : TcpConnection} {xs : List ℕ}
    → Valid c xs
    → is_writing c.channel ≡ true
    → is_disconnected c.state ≡ false
writing-up {c} {xs} v on = elim (Bool-cases (is_disconnected c.state)) [
  | inl down ↦ absurd (false≢true (sym (ap (λ e. e.pollout) (v.down down)) ∙ on))
  | inr up ↦ up
]

-- The connection after `handleWrite` wrote `n` bytes of `xs`.
pub handle_write-some :
    {c : TcpConnection} {xs : List ℕ} (n : ℕ)
    → Valid c xs
    → n ≤ length xs
    → 0 < n
    → is_writing c.channel ≡ true
    → (buf : Buffer) × Holds buf (drop n xs)
      × (handle_write (wrote n) c
          ≡ some (
              if length (drop n xs) == 0
              then output_drained (record c { output_buffer = buf; wire = c.wire ++ take n xs })
              else record c { output_buffer = buf; wire = c.wire ++ take n xs }))
unfolding handle_write
handle_write-some {c} {xs} n v le more on =
    let (buf, e, h) = (retrieve_lem n v.output).0 le in
    (
      buf,
      h,
      rw
          (
            on,
            lt→ltb 0 n more,
            bytes_at-Shape n (Holds-Shape v.output) le,
            e,
            Shape-readable (Holds-Shape h),
          )
          refl,
    )

handle_write-moved :
    {c : TcpConnection} {xs : List ℕ} (n : ℕ)
    → Valid c xs
    → n ≤ length xs
    → 0 < n
    → is_writing c.channel ≡ true
    → (c' : TcpConnection) × (xs' : List ℕ) × (handle_write (wrote n) c ≡ some c')
      × Valid c' xs'
      × (c'.wire ++ xs' ≡ c.wire ++ xs)
handle_write-moved {c} {xs} n v le more on =
    let (buf, h, e) = handle_write-some n v le more on in
    let c₁ : TcpConnection = record c { output_buffer = buf; wire = c.wire ++ take n xs } in
    elim (Bool-cases (length (drop n xs) == 0)) [
      | inl all ↦
          let left : length xs ≤ n =
            omega (arith, (==_iff (length (drop n xs)) 0).0 all, length-drop n xs) in
          let (v', w) =
            output_drained-Valid c₁ v.input (subst (Holds buf) (drop_all n xs left) h)
              (writing-up v on) in
          (
            output_drained c₁,
            [],
            e ∙ rw all refl,
            v',
            append-nil _ ∙ w ∙ ap (λ ys. c.wire ++ ys) (take_all n xs left),
          )
      | inr some_left ↦ (
        c₁,
        drop n xs,
        e ∙ rw some_left refl,
        record {
          input = v.input;
          output = h;
          idle = λ _ off. absurd (false≢true (sym off ∙ on));
          busy = λ _. positive (length (drop n xs)) some_left;
          down = v.down;
        },
        append_assoc c.wire (take n xs) (drop n xs)
            ∙ ap (λ ys. c.wire ++ ys) (take-append-drop n xs),
      )
    ]
  where
    positive : (k : ℕ) → k == 0 ≡ false → 0 < k
    positive k e = ground arith

-- `handleWrite` fails no assert, and moves the bytes that the kernel took from the front of the
-- output buffer to the end of what it has, under a write that takes at most what it is given.
pub handle_write_lem :
    {c : TcpConnection} {xs : List ℕ} (r : WriteResult)
    → Valid c xs
    → Fits r (length xs)
    → (c' : TcpConnection) × (xs' : List ℕ) × (handle_write r c ≡ some c')
      × Valid c' xs'
      × (c'.wire ++ xs' ≡ c.wire ++ xs)
unfolding handle_write
handle_write_lem {c} {xs} (write_failed errno) v fits = (c, xs, refl, v, refl)
handle_write_lem {c} {xs} (wrote n) v fits = elim (Bool-cases (is_writing c.channel)) [
  | inr off ↦ (c, xs, rw off refl, v, refl)
  | inl on ↦ elim (Bool-cases (ltb 0 n)) [
    | inr nothing ↦ (c, xs, rw (on, nothing) refl, v, refl)
    | inl more ↦ handle_write-moved n v fits (ltb→lt 0 n more) on
  ]
]

pub output_drained-closes :
    (c : TcpConnection) → is_disconnecting c.state ≡ true → (output_drained c).write_closed ≡ true
unfolding output_drained shutdown_in_loop
output_drained-closes c d = rw (d, is_writing-disable_writing c.channel) refl

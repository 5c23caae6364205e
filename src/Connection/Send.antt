-- ===== src/Connection/Send.antt =====
-- `sendInLoop`: what becomes of the bytes, for each answer of the kernel.
use muduo_pro.Common.{
  ℕ, ◌+◌, ◌≤◌, ◌≡◌, refl, sym, ap, subst, ◌∙◌, inl, inr, true, false, some, List, [], ◌∷◌, ◌++◌,
  append_assoc, false≢true, append-nil, arith, length, take, drop, take-append-drop, Bool-cases,
  ◌==◌, le→leb, ==_iff, sub_size,
}
use muduo_pro.Buffer.Shape.{max_size}
use muduo_pro.Channel.{is_writing}
use muduo_pro.Connection.{
  TcpConnection, is_disconnected, WriteResult, wrote, write_failed, ewouldblock, epipe,
  write_direct, buffer_rest, writes_direct, send_in_loop,
}
use muduo_pro.Connection.Output.{Valid, is_lost, accepted, Fits, sub_size-le, buffer_rest_lem}

write_direct-Valid :
    {c : TcpConnection} {xs : List ℕ} (bytes : List ℕ) (r : WriteResult)
    → Valid c xs
    → Valid (write_direct bytes r c).2 xs
unfolding write_direct
write_direct-Valid bytes (wrote n) v = record {
  input = v.input;
  output = v.output;
  idle = v.idle;
  busy = v.busy;
  down = v.down;
}
write_direct-Valid bytes (write_failed errno) v = v

empty {ℓ} : {A : Type ℓ} (xs : List A) → length xs ≡ 0 → xs ≡ []
empty [] e = refl
empty (x ∷ xs) e = absurd (omega arith)

in_order :
    (wire xs bytes : List ℕ) (n : ℕ)
    → xs ≡ []
    → (wire ++ take n bytes) ++ (xs ++ drop n bytes) ≡ wire ++ (xs ++ bytes)
in_order wire xs bytes n nothing = rw nothing (
    append_assoc wire (take n bytes) (drop n bytes)
    ∙ ap (λ ys. wire ++ ys) (take-append-drop n bytes))

writes_direct-idle : (c : TcpConnection) → writes_direct c ≡ true → is_writing c.channel ≡ false
writes_direct-idle c direct = elim (Bool-cases (is_writing c.channel)) [
  | inl on ↦ absurd (false≢true (rw on at direct))
  | inr off ↦ off
]

buffer_rest-error :
    (bytes : List ℕ) (c : TcpConnection)
    → length c.output_buffer.buffer + length bytes ≤ max_size
    → buffer_rest bytes 0 true c ≡ some c
unfolding buffer_rest
buffer_rest-error bytes c small =
    rw
      (le→leb (sub_size (length bytes) 0) (length bytes)
        (omega (arith, sub_size-le (length bytes) 0 (omega (arith, small)) (omega arith))))
      refl

-- The result of a `sendInLoop` that keeps the order of the bytes.
abbrev Sends : List ℕ → WriteResult → TcpConnection → List ℕ → Type 0
Sends bytes r c xs =
    (c' : TcpConnection) × (xs' : List ℕ) × (send_in_loop bytes r c ≡ some c')
    × Valid c' xs'
    × (c'.wire ++ xs' ≡ c.wire ++ (xs ++ accepted bytes r c))

send_in_loop-buffered :
    {c : TcpConnection} {xs : List ℕ} (bytes : List ℕ) (r : WriteResult)
    → Valid c xs
    → length c.output_buffer.buffer + length bytes ≤ max_size
    → is_disconnected c.state ≡ false
    → writes_direct c ≡ false
    → Sends bytes r c xs
unfolding send_in_loop is_lost
send_in_loop-buffered {c} {xs} bytes r v small up later =
    let (c', e, v', w) = buffer_rest_lem bytes 0 v up small (omega arith) in
    (
      c',
      xs ++ bytes,
      rw (up, later, send_in_loop) e,
      v',
      rw (up, later) (ap (λ ys. ys ++ (xs ++ bytes)) w),
    )

send_in_loop-written :
    {c : TcpConnection} {xs : List ℕ} (bytes : List ℕ) (n : ℕ)
    → Valid c xs
    → length c.output_buffer.buffer + length bytes ≤ max_size
    → n ≤ length bytes
    → is_disconnected c.state ≡ false
    → writes_direct c ≡ true
    → Sends bytes (wrote n) c xs
unfolding send_in_loop is_lost write_direct
send_in_loop-written {c} {xs} bytes n v small le up direct =
    let nothing : xs ≡ [] = empty xs (v.idle up (writes_direct-idle c direct)) in
    let (c', e, v', w) =
      buffer_rest_lem bytes n (write_direct-Valid bytes (wrote n) v) up small le in
    (
      c',
      xs ++ drop n bytes,
      rw (up, direct, send_in_loop) e,
      v',
      rw (up, direct)
          (ap (λ ys. ys ++ (xs ++ drop n bytes)) w ∙ in_order c.wire xs bytes n nothing),
    )

send_in_loop-failed :
    {c : TcpConnection} {xs : List ℕ} (bytes : List ℕ) (errno : ℕ)
    → Valid c xs
    → length c.output_buffer.buffer + length bytes ≤ max_size
    → is_disconnected c.state ≡ false
    → writes_direct c ≡ true
    → Sends bytes (write_failed errno) c xs
unfolding send_in_loop is_lost write_direct
send_in_loop-failed {c} {xs} bytes errno v small up direct = elim (Bool-cases (errno == epipe)) [
  | inl pipe ↦ (
    c,
    xs,
    subst (λ k. send_in_loop bytes (write_failed k) c ≡ some c) (sym ((==_iff errno epipe).0 pipe))
        (rw (up, direct, send_in_loop) (buffer_rest-error bytes c small)),
    v,
    rw (up, direct, pipe, append-nil xs) refl,
  )
  | inr other ↦
      let (c', e, v', w) = buffer_rest_lem bytes 0 v up small (omega arith) in
      (
        c',
        xs ++ bytes,
        elim (Bool-cases (errno == ewouldblock)) [
          | inl again ↦ rw (up, direct, other, again, send_in_loop) e
          | inr bad ↦ rw (up, direct, other, bad, send_in_loop) e
        ],
        v',
        rw (up, direct, other) (ap (λ ys. ys ++ (xs ++ bytes)) w),
      )
]

-- `sendInLoop` fails no assert. The bytes taken by the kernel and those waiting behind them are
-- as before, with the new bytes at the end, in order and none of them twice, unless the connection
-- is down or the kernel answers EPIPE, when the new bytes are dropped. This is under a write that
-- takes at most what it is given and with room for the bytes in memory.
pub send_in_loop_lem :
    {c : TcpConnection} {xs : List ℕ} (bytes : List ℕ) (r : WriteResult)
    → Valid c xs
    → length c.output_buffer.buffer + length bytes ≤ max_size
    → Fits r (length bytes)
    → (c' : TcpConnection) × (xs' : List ℕ) × (send_in_loop bytes r c ≡ some c')
      × Valid c' xs'
      × (c'.wire ++ xs' ≡ c.wire ++ (xs ++ accepted bytes r c))
unfolding send_in_loop is_lost
send_in_loop_lem {c} {xs} bytes r v small fits = elim (Bool-cases (is_disconnected c.state)) [
  | inl down ↦ (c, xs, rw (down, send_in_loop) refl, v, rw (down, append-nil xs) refl)
  | inr up ↦ elim (Bool-cases (writes_direct c)) [
    | inl direct ↦ written r fits up direct
    | inr later ↦ send_in_loop-buffered bytes r v small up later
  ]
]
  where
    written :
        (r : WriteResult)
        → Fits r (length bytes)
        → is_disconnected c.state ≡ false
        → writes_direct c ≡ true
        → Sends bytes r c xs
    written (wrote n) fits up direct = send_in_loop-written bytes n v small fits up direct
    written (write_failed errno) fits up direct = send_in_loop-failed bytes errno v small up direct

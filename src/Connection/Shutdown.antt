-- ===== src/Connection/Shutdown.antt =====
-- A `shutdown` while bytes wait, and the calls of `handleWrite` after it.
use muduo_pro.Common.{
  ℕ, zero, suc, ◌+◌, ◌-◌, ◌≤◌, ◌<◌, ◌≡◌, refl, sym, ap, subst, ◌∙◌, inl, inr, Bool, true, false,
  false≢true, ◌&&◌, Option, some, List, [], ◌∷◌, ◌++◌, append_assoc, append-nil, arith, length,
  take, drop, drop_all, Bool-cases, ltb, leb, ◌==◌, lt→ltb, ==_iff, length-drop, if◌then◌else◌,
  ◌>>=◌,
}
use muduo_pro.Buffer.Shape.{Holds}
use muduo_pro.Channel.{is_writing}
use muduo_pro.Connection.{
  TcpConnection, ConnectionState, disconnected, connecting, connected, disconnecting,
  is_disconnected, is_disconnecting, is_connected, WriteResult, wrote, write_failed, handle_write,
  output_drained, shutdown, shutdown_in_loop,
}
use muduo_pro.Connection.Output.{Valid}
use muduo_pro.Connection.Steps.{handle_write-some, output_drained-Valid, output_drained-closes}

-- The bytes that `write` took.
abbrev pub taken_by : WriteResult → ℕ
taken_by (wrote n) = n
taken_by (write_failed errno) = 0

abbrev pub total : List WriteResult → ℕ
total [] = 0
total (r ∷ rs) = taken_by r + total rs

-- Calls of `handleWrite`, one for each answer of the kernel.
abbrev pub handle_writes : List WriteResult → TcpConnection → Option TcpConnection
handle_writes [] c = some c
handle_writes (r ∷ rs) c = do c' ← handle_write r c; handle_writes rs c'

-- Whether the sending side is closed when `n` bytes of `len` have gone out.
abbrev closed_after : ℕ → ℕ → Bool → Bool
closed_after len n before = if ltb 0 len && leb len n then true else before

-- What a connection that is shutting down is when `n` bytes more have gone out.
abbrev Drains : TcpConnection → List ℕ → ℕ → Option TcpConnection → Type 0
Drains c xs n result =
    (c' : TcpConnection) × (result ≡ some c')
    × Valid c' (drop n xs)
    × (is_disconnecting c'.state ≡ true)
    × (c'.wire ≡ c.wire ++ take n xs)
    × (c'.write_closed ≡ closed_after (length xs) n c.write_closed)

unmoved :
    {c : TcpConnection} {xs : List ℕ} (result : Option TcpConnection)
    → Valid c xs
    → is_disconnecting c.state ≡ true
    → result ≡ some c
    → Drains c xs 0 result
unmoved {c} {xs} result v d e = (
  c,
  e,
  v,
  d,
  sym (append-nil c.wire),
  ap (λ b. if b then true else c.write_closed) (nothing (length xs)),
)
  where
    nothing : (len : ℕ) → false ≡ (ltb 0 len && leb len 0)
    nothing len = ground arith

up : (s : ConnectionState) → is_disconnecting s ≡ true → is_disconnected s ≡ false
up disconnected d = absurd (false≢true d)
up connecting d = refl
up connected d = refl
up disconnecting d = refl

handle_write-zero : (c : TcpConnection) → handle_write (wrote 0) c ≡ some c
unfolding handle_write
handle_write-zero c = elim (Bool-cases (is_writing c.channel)) [
  | inl on ↦ rw on refl
  | inr off ↦ rw off refl
]

-- While bytes wait, a write is awaited.
writing :
    {c : TcpConnection} {xs : List ℕ}
    → Valid c xs
    → is_disconnecting c.state ≡ true
    → 0 < length xs
    → is_writing c.channel ≡ true
writing {c} {xs} v d more = elim (Bool-cases (is_writing c.channel)) [
  | inl on ↦ on
  | inr off ↦ absurd (omega (arith, more, v.idle (up c.state d) off))
]

output_drained-state : (c : TcpConnection) → (output_drained c).state ≡ c.state
unfolding output_drained shutdown_in_loop
output_drained-state c = elim (Bool-cases (is_disconnecting c.state)) [
  | inl d ↦ rw d refl
  | inr d ↦ rw d refl
]

handle_write-Drains :
    {c : TcpConnection} {xs : List ℕ} (r : WriteResult)
    → Valid c xs
    → is_disconnecting c.state ≡ true
    → taken_by r ≤ length xs
    → Drains c xs (taken_by r) (handle_write r c)
unfolding handle_write
handle_write-Drains {c} (write_failed errno) v d le = unmoved (some c) v d refl
handle_write-Drains {c} (wrote zero) v d le =
    unmoved (handle_write (wrote 0) c) v d (handle_write-zero c)
handle_write-Drains {c} {xs} (wrote (suc n)) v d le =
    let on = writing v d (omega (arith, le)) in
    let (buf, h, e) = handle_write-some (suc n) v le (omega arith) on in
    let c₁ : TcpConnection = record c { output_buffer = buf; wire = c.wire ++ take (suc n) xs } in
    elim (Bool-cases (length (drop (suc n) xs) == 0)) [
      | inl all ↦
          let left : length xs ≤ suc n =
            omega (arith, (==_iff (length (drop (suc n) xs)) 0).0 all, length-drop (suc n) xs) in
          let nothing : drop (suc n) xs ≡ [] = drop_all (suc n) xs left in
          let (v', w) =
            output_drained-Valid c₁ v.input (subst (Holds buf) nothing h) (up c.state d) in
          (
            output_drained c₁,
            e ∙ rw all refl,
            subst (Valid (output_drained c₁)) (sym nothing) v',
            ap is_disconnecting (output_drained-state c₁) ∙ d,
            w,
            output_drained-closes c₁ d
                ∙ ap (λ b. if b then true else c.write_closed) (whole (length xs) n le left),
          )
      | inr some_left ↦ (
        c₁,
        e ∙ rw some_left refl,
        record {
          input = v.input;
          output = h;
          idle = λ _ off. absurd (false≢true (sym off ∙ on));
          busy = λ _. positive (length (drop (suc n) xs)) some_left;
          down = v.down;
        },
        d,
        refl,
        ap (λ b. if b then true else c.write_closed)
            (partial (length xs) n (length (drop (suc n) xs)) some_left (length-drop (suc n) xs)),
      )
    ]
  where
    positive : (k : ℕ) → k == 0 ≡ false → 0 < k
    positive k e = ground arith

    whole : (len n : ℕ) → suc n ≤ len → len ≤ suc n → true ≡ (ltb 0 len && leb len (suc n))
    whole len n le left = ground arith

    partial :
        (len n rest : ℕ)
        → rest == 0 ≡ false
        → rest ≡ len - suc n
        → false ≡ (ltb 0 len && leb len (suc n))
    partial len n rest more e = ground arith

suc_plus : (n k : ℕ) → suc n + k ≡ suc (n + k)
suc_plus n k = omega arith

take_plus : {A : Type 0} (n k : ℕ) (xs : List A) → take (n + k) xs ≡ take n xs ++ take k (drop n xs)
take_plus zero k xs = ap (λ m. take m xs) (omega arith)
take_plus (suc n) zero [] = ap (λ m. take m []) (suc_plus n 0)
take_plus (suc n) (suc k) [] = ap (λ m. take m []) (suc_plus n (suc k))
take_plus (suc n) k (x ∷ xs) =
    ap (λ m. take m (x ∷ xs)) (suc_plus n k) ∙ ap (λ ys. x ∷ ys) (take_plus n k xs)

drop_plus : {A : Type 0} (n k : ℕ) (xs : List A) → drop (n + k) xs ≡ drop k (drop n xs)
drop_plus zero k xs = ap (λ m. drop m xs) (omega arith)
drop_plus (suc n) zero [] = ap (λ m. drop m []) (suc_plus n 0)
drop_plus (suc n) (suc k) [] = ap (λ m. drop m []) (suc_plus n (suc k))
drop_plus (suc n) k (x ∷ xs) = ap (λ m. drop m (x ∷ xs)) (suc_plus n k) ∙ drop_plus n k xs

closed_after_both :
    (len n k rest : ℕ) (before : Bool)
    → rest ≡ len - n
    → n ≤ len
    → k ≤ rest
    → closed_after rest k (closed_after len n before) ≡ closed_after len (n + k) before
closed_after_both len n k rest before e le le' = ground arith

handle_writes-Drains :
    (rs : List WriteResult) {c : TcpConnection} {xs : List ℕ}
    → Valid c xs
    → is_disconnecting c.state ≡ true
    → total rs ≤ length xs
    → Drains c xs (total rs) (handle_writes rs c)
handle_writes-Drains [] {c} v d le = unmoved (some c) v d refl
handle_writes-Drains (r ∷ rs) {c} {xs} v d le =
    let n : ℕ = taken_by r in
    let (c₁, e₁, v₁, d₁, w₁, k₁) = handle_write-Drains r v d (omega (arith, le)) in
    let (c₂, e₂, v₂, d₂, w₂, k₂) =
      handle_writes-Drains rs v₁ d₁ (omega (arith, le, length-drop (taken_by r) xs)) in
    (
      c₂,
      rw e₁ e₂,
      subst (Valid c₂) (sym (drop_plus (taken_by r) (total rs) xs)) v₂,
      d₂,
      w₂
          ∙ ap (λ ys. ys ++ take (total rs) (drop (taken_by r) xs)) w₁
          ∙ append_assoc c.wire (take (taken_by r) xs) (take (total rs) (drop (taken_by r) xs))
          ∙ ap (λ ys. c.wire ++ ys) (sym (take_plus (taken_by r) (total rs) xs)),
      k₂
          ∙ ap (closed_after (length (drop (taken_by r) xs)) (total rs)) k₁
          ∙ closed_after_both (length xs) (taken_by r) (total rs) (length (drop (taken_by r) xs))
              c.write_closed (length-drop (taken_by r) xs) (omega (arith, le))
              (omega (arith, le, length-drop (taken_by r) xs)),
    )

-- A `shutdown` in the loop's thread while bytes wait leaves the sending side open. Through any calls of
-- `handleWrite` after it, in which the kernel takes some of the bytes or none, they go out in order,
-- and the sending side is as it was until the last of them has gone out, which closes it.
pub handle_writes-shutdown :
    {c : TcpConnection} {xs : List ℕ} (rs : List WriteResult)
    → Valid c xs
    → is_connected c.state ≡ true
    → is_writing c.channel ≡ true
    → total rs ≤ length xs
    → (c' : TcpConnection) × ((shutdown true c).write_closed ≡ c.write_closed)
      × (handle_writes rs (shutdown true c) ≡ some c')
      × (c'.wire ≡ c.wire ++ take (total rs) xs)
      × (c'.write_closed ≡ (if leb (length xs) (total rs) then true else c.write_closed))
unfolding shutdown shutdown_in_loop
handle_writes-shutdown {c} {xs} rs v up on le =
    let d : TcpConnection = record c { state = disconnecting } in
    let shut : shutdown true c ≡ record c { state = disconnecting } = rw (up, on) refl in
    let v' : Valid d xs = record {
      input = v.input;
      output = v.output;
      idle = λ _ off. absurd (false≢true (sym off ∙ on));
      busy = v.busy;
      down = λ down. absurd (false≢true down);
    } in
    let (c', e, _, _, w, k) = handle_writes-Drains rs v' refl le in
    (
      c',
      ap (λ x. x.write_closed) shut,
      ap (handle_writes rs) shut ∙ e,
      w,
      k
          ∙ ap (λ b. if b && leb (length xs) (total rs) then true else c.write_closed)
              (lt→ltb 0 (length xs) (v.busy on)),
    )

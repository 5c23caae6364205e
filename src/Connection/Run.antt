-- ===== src/Connection/Run.antt =====
-- A connection through any sequence of its operations.
use muduo_pro.Common.{
  some_injective, ℕ, ◌≡◌, ◌⊎◌, inl, inr, true, false, refl, sym, ap, subst, ◌∙◌, none, some, List,
  [], ◌++◌, append_assoc, append-nil,
}
use muduo_pro.Buffer.Shape.{Holds-Shape, Shape-readable}
use muduo_pro.Connection.{TcpConnection}
use muduo_pro.Connection.Output.{Valid, Fits}
use muduo_pro.Connection.Steps.{handle_write_lem}
use muduo_pro.Connection.Ops.{
  Op, establish, send_bytes, shut_down, run_functor, readable_event, writable_event, destroy, step,
  Enabled, accepts, fails, messages, hands, takes, Steps,
}
use muduo_pro.Connection.Calls.{
  establish-Steps, read-Steps, shut-Steps, destroy-Steps, functor-Steps, send-Steps,
}
use muduo_pro.Connection.Messages.{Moves, step-Moves}

-- An operation returns, and keeps the connection, its bytes and the messages in its queue in order.
abbrev pub Orderly : Op → TcpConnection → List ℕ → Type 0
Orderly op c xs =
    (c' : TcpConnection) × (xs' : List ℕ) × (step op c ≡ some c')
    × Valid c' xs'
    × (c'.wire ++ xs' ≡ c.wire ++ (xs ++ accepts op c))
    × (messages c.queue ++ hands op c ≡ takes op c ++ messages c'.queue)

returns :
    (c : TcpConnection) (xs : List ℕ) (op : Op)
    → Steps c xs (accepts op c) (step op c)
    → Orderly op c xs
returns c xs op (c', xs', e, v, w) = (c', xs', e, v, w, subst (Moves op c) e (step-Moves op c))

-- Every operation that may come leaves a valid connection in which the bytes taken by the kernel and
-- those waiting are the earlier ones, in order, followed by those that it accepts, and in which the
-- messages of other threads wait in the order in which they came. Only `connectDestroyed` of a
-- connection that is shutting down, whose channel awaits events, fails an assert, and it always does.
-- This is under a kernel that behaves as documented and with room in memory.
pub step_returns :
    {c : TcpConnection} {xs : List ℕ} (op : Op)
    → Valid c xs
    → Enabled op c
    → ((fails op c ≡ true) × (step op c ≡ none)) ⊎ ((fails op c ≡ false) × Orderly op c xs)
unfolding step
step_returns {c} {xs} establish v e = inr (refl, returns c xs establish (establish-Steps v e))
step_returns {c} {xs} (send_bytes true bytes r) v e =
    inr (refl, returns c xs (send_bytes true bytes r) (send-Steps true bytes r v e))
step_returns {c} {xs} (send_bytes false bytes r) v e =
    inr (refl, returns c xs (send_bytes false bytes r) (send-Steps false bytes r v e))
step_returns {c} {xs} (shut_down in_loop) v e =
    inr (refl, returns c xs (shut_down in_loop) (shut-Steps in_loop v))
step_returns {c} {xs} (run_functor r) v e =
    inr (refl, returns c xs (run_functor r) (functor-Steps c.queue r v e))
step_returns {c} {xs} (readable_event r time) v e =
    inr (refl, returns c xs (readable_event r time) (read-Steps r time v e))
step_returns {c} {xs} (writable_event r) v e =
    let (c', xs', e', v', w) =
      handle_write_lem r v (subst (Fits r) (Shape-readable (Holds-Shape v.output)) e) in
    inr (
      refl,
      returns c xs (writable_event r)
          (c', xs', e', v', w ∙ ap (λ ys. c.wire ++ ys) (sym (append-nil xs))),
    )
step_returns {c} {xs} destroy v e = elim (destroy-Steps v e) [
  | inl stopped ↦ inl stopped
  | inr (goes_on, s) ↦ inr (goes_on, returns c xs destroy s)
]

-- A history of the connection, with the bytes that its operations accept, the messages that other
-- threads give to the loop, and the messages that the loop takes to send.
pub data Run : TcpConnection → TcpConnection → List ℕ → List (List ℕ) → List (List ℕ) → Type 0 where
  stop : {c : TcpConnection} → Run c c [] [] []
  next :
      {c c' c'' : TcpConnection} {ys : List ℕ} {given taken : List (List ℕ)} (op : Op)
      → Enabled op c
      → step op c ≡ some c'
      → Run c' c'' ys given taken
      → Run c c'' (accepts op c ++ ys) (hands op c ++ given) (takes op c ++ taken)

-- An operation that has returned.
returned :
    {c c' : TcpConnection} {xs : List ℕ} (op : Op)
    → Valid c xs
    → Enabled op c
    → step op c ≡ some c'
    → (xs' : List ℕ) × Valid c' xs'
      × (c'.wire ++ xs' ≡ c.wire ++ (xs ++ accepts op c))
      × (messages c.queue ++ hands op c ≡ takes op c ++ messages c'.queue)
returned {c} {c'} {xs} op v can e = elim (step_returns op v can) [
  | inl (_, stopped) ↦ absurd (none_some (sym stopped ∙ e))
  | inr (_, (d, xs', e', v', w, m)) ↦
      let same : d ≡ c' = some_injective (sym e' ∙ e) in
      (
        xs',
        subst (λ k. Valid k xs') same v',
        subst (λ k. k.wire ++ xs' ≡ c.wire ++ (xs ++ accepts op c)) same w,
        subst (λ k. messages c.queue ++ hands op c ≡ takes op c ++ messages k.queue) same m,
      )
]
  where
    none_some : none ≡ some c' → ⊥
    none_some h = cc

-- After any history from a valid connection, what the kernel has taken followed by what waits in the
-- output buffer is what they were at first, followed by all bytes accepted since, in the order of the
-- operations, and the connection is valid. The messages that waited at first and those that other
-- threads gave since are, in order, those that the loop took to send and those that wait.
pub Run-stream :
    {c c' : TcpConnection} {xs ys : List ℕ} {given taken : List (List ℕ)}
    → Valid c xs
    → Run c c' ys given taken
    → (xs' : List ℕ) × Valid c' xs'
      × (c'.wire ++ xs' ≡ c.wire ++ (xs ++ ys))
      × (messages c.queue ++ given ≡ taken ++ messages c'.queue)
Run-stream {c} {xs = xs} v stop =
    (xs, v, ap (λ ys. c.wire ++ ys) (sym (append-nil xs)), append-nil (messages c.queue))
Run-stream {c} {c'} {xs = xs} v
      (next {c' = d} {ys = ys} {given = given} {taken = taken} op can e rest) =
    let (xs₁, v₁, w₁, m₁) = returned op v can e in
    let (xs', v', w', m') = Run-stream v₁ rest in
    (
      xs',
      v',
      w'
          ∙ sym (append_assoc d.wire xs₁ ys)
          ∙ ap (λ zs. zs ++ ys) w₁
          ∙ append_assoc c.wire (xs ++ accepts op c) ys
          ∙ ap (λ zs. c.wire ++ zs) (append_assoc xs (accepts op c) ys),
      sym (append_assoc (messages c.queue) (hands op c) given)
          ∙ ap (λ ms. ms ++ given) m₁
          ∙ append_assoc (takes op c) (messages d.queue) given
          ∙ ap (λ ms. takes op c ++ ms) m'
          ∙ sym (append_assoc (takes op c) taken (messages c'.queue)),
    )

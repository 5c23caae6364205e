-- ===== src/Connector/Sockets.antt =====
-- The sockets of a connector: what each operation does to those that are open.
use muduo_pro.Common.{
  ℕ, suc, ◌-◌, ◌≤◌, ◌≡◌, refl, sym, ap, ◌∙◌, inl, inr, Bool, true, false, false≢true, ◌||◌, Option,
  none, some, List, [], ◌∷◌, arith, ◌==◌, ==_refl, Bool-cases, if◌then◌else◌,
}
use muduo_pro.Connector.{
  Connector, ConnectorState, disconnected, connecting, connected, is_disconnected, is_connecting,
  without_socket, close_socket, retry, begin_connecting, Outcome, goes_on, tries_again, gives_up,
  outcome_of, act_on, connect, start_in_loop, remove_and_reset_channel, reset_channel, stop_in_loop,
  connection_made, handle_write, handle_error,
}

-- How often `resetChannel` waits while no connection is being made.
abbrev pub waiting : Option ℕ → ℕ
waiting none = 0
waiting (some fd) = 1

-- While connecting, the channel's socket is the only open one; else there is none, and a channel
-- that is left over is about to be reset.
abbrev pub InUse : Connector → Type 0
InUse c = (fd : ℕ) × (c.channel ≡ some fd) × (c.open_sockets ≡ fd ∷ []) × (c.resets ≡ 0)

abbrev pub Idle : Connector → Type 0
Idle c = (c.open_sockets ≡ []) × (c.resets ≡ waiting c.channel)

abbrev pub TidyIn : ConnectorState → Connector → Type 0
TidyIn connecting c = InUse c
TidyIn disconnected c = Idle c
TidyIn connected c = Idle c

abbrev pub Tidy : Connector → Type 0
Tidy c = TidyIn c.state c

TidyIn-InUse : (c : Connector) (s : ConnectorState) → is_connecting s ≡ true → TidyIn s c → InUse c
TidyIn-InUse c connecting e t = t
TidyIn-InUse c disconnected e t = absurd (false≢true e)
TidyIn-InUse c connected e t = absurd (false≢true e)

pub TidyIn-Idle :
    (c : Connector) (s : ConnectorState) → is_connecting s ≡ false → TidyIn s c → Idle c
TidyIn-Idle c connecting e t = absurd (false≢true (sym e))
TidyIn-Idle c disconnected e t = t
TidyIn-Idle c connected e t = t

Idle-TidyIn : (c : Connector) (s : ConnectorState) → is_connecting s ≡ false → Idle c → TidyIn s c
Idle-TidyIn c connecting e t = absurd (false≢true (sym e))
Idle-TidyIn c disconnected e t = t
Idle-TidyIn c connected e t = t

disconnected_idle : (s : ConnectorState) → is_disconnected s ≡ true → is_connecting s ≡ false
disconnected_idle connecting e = absurd (false≢true e)
disconnected_idle disconnected e = refl
disconnected_idle connected e = absurd (false≢true e)

only_socket : (fd : ℕ) (xs : List ℕ) → xs ≡ fd ∷ [] → without_socket fd xs ≡ []
unfolding without_socket
only_socket fd xs e = rw (e, ==_refl fd) refl

retry-Tidy :
    (c : Connector) (fd : ℕ)
    → c.open_sockets ≡ fd ∷ []
    → c.resets ≡ waiting c.channel
    → Tidy (retry fd c)
unfolding retry close_socket
retry-Tidy c fd one resets = elim (Bool-cases c.wants_connection) [
  | inl wants ↦ rw wants (only_socket fd c.open_sockets one, resets)
  | inr not_wanted ↦ rw not_wanted (only_socket fd c.open_sockets one, resets)
]

connection_made-Tidy :
    (c : Connector) (fd : ℕ)
    → c.open_sockets ≡ fd ∷ []
    → c.resets ≡ waiting c.channel
    → Tidy (connection_made fd c)
unfolding connection_made close_socket
connection_made-Tidy c fd one resets = elim (Bool-cases c.wants_connection) [
  | inl wants ↦ rw wants (only_socket fd c.open_sockets one, resets)
  | inr not_wanted ↦ rw not_wanted (only_socket fd c.open_sockets one, resets)
]

-- The operation returns, and leaves the sockets tidy.
abbrev Keeps : Option Connector → Type 0
Keeps result = (c' : Connector) × (result ≡ some c') × Tidy c'

connect-Keeps :
    (c : Connector) (fd errno : ℕ)
    → is_connecting c.state ≡ false
    → Idle c
    → c.channel ≡ none
    → Keeps (connect fd errno c)
unfolding connect begin_connecting close_socket
connect-Keeps c fd errno s (nothing, resets) free = by_outcome (outcome_of errno)
  where
    by_outcome :
        (o : Outcome) → Keeps (act_on o fd (record c { open_sockets = fd ∷ c.open_sockets }))
    by_outcome goes_on = (
      record c {
        open_sockets = fd ∷ c.open_sockets;
        state = connecting;
        channel = some fd;
        watched = true;
      },
      rw free refl,
      (fd, refl, ap (λ xs. fd ∷ xs) nothing, resets ∙ ap waiting free),
    )
    by_outcome tries_again = (
      _,
      refl,
      retry-Tidy (record c { open_sockets = fd ∷ c.open_sockets }) fd (ap (λ xs. fd ∷ xs) nothing)
          resets,
    )
    by_outcome gives_up = (
      close_socket fd (record c { open_sockets = fd ∷ c.open_sockets }),
      refl,
      Idle-TidyIn _ c.state s
          (only_socket fd (fd ∷ c.open_sockets) (ap (λ xs. fd ∷ xs) nothing), resets),
    )

pub start_in_loop-Keeps :
    (c : Connector) (fd errno : ℕ)
    → Tidy c
    → is_disconnected c.state ≡ true
    → c.channel ≡ none
    → Keeps (start_in_loop fd errno c)
unfolding start_in_loop
start_in_loop-Keeps c fd errno t d free = rw d (by_wish c.wants_connection)
  where
    down : is_connecting c.state ≡ false
    down = disconnected_idle c.state d

    by_wish : (b : Bool) → Keeps (if b then connect fd errno c else some c)
    by_wish true = connect-Keeps c fd errno down (TidyIn-Idle c c.state down t) free
    by_wish false = (c, refl, t)

removed :
    (c : Connector)
    → InUse c
    → (fd : ℕ) × (remove_and_reset_channel c
        ≡ some (fd, record c { watched = false; resets = suc c.resets }))
      × (c.open_sockets ≡ fd ∷ [])
      × (suc c.resets ≡ waiting c.channel)
unfolding remove_and_reset_channel
removed c (fd, ch, one, zero_resets) =
    (fd, rw ch refl, one, ap suc zero_resets ∙ ap waiting (sym ch))

pub handle_write-Keeps :
    (c : Connector) (err : ℕ) (self_connect : Bool)
    → Tidy c
    → is_connecting c.state || is_disconnected c.state ≡ true
    → Keeps (handle_write err self_connect c)
unfolding handle_write
handle_write-Keeps c err self_connect t up = elim (Bool-cases (is_connecting c.state)) [
  | inr other ↦ (c, rw (other, (rw other at up)) refl, t)
  | inl now ↦
      let (fd, e, one, resets) = removed c (TidyIn-InUse c c.state now t) in
      let c₁ : Connector = record c { watched = false; resets = suc c.resets } in
      elim (Bool-cases (err == 0)) [
        | inr bad ↦ (_, rw (now, e, bad) refl, retry-Tidy c₁ fd one resets)
        | inl good ↦ elim (Bool-cases self_connect) [
          | inl self ↦ (_, rw (now, e, good, self) refl, retry-Tidy c₁ fd one resets)
          | inr ok ↦ (_, rw (now, e, good, ok) refl, connection_made-Tidy c₁ fd one resets)
        ]
      ]
]

pub handle_error-Keeps :
    (c : Connector) → Tidy c → is_connecting c.state ≡ true → Keeps (handle_error c)
unfolding handle_error
handle_error-Keeps c t now =
    let (fd, e, one, resets) = removed c (TidyIn-InUse c c.state now t) in
    let c₁ : Connector = record c { watched = false; resets = suc c.resets } in
    (retry fd c₁, rw (now, e) refl, retry-Tidy c₁ fd one resets)

pub stop_in_loop-Keeps : (c : Connector) → Tidy c → Keeps (stop_in_loop c)
unfolding stop_in_loop remove_and_reset_channel
stop_in_loop-Keeps c t = elim (Bool-cases (is_connecting c.state)) [
  | inr other ↦ (c, rw other refl, t)
  | inl now ↦
      let (fd, ch, one, resets) = TidyIn-InUse c c.state now t in
      let c₁ : Connector = record c {
        state = disconnected;
        watched = false;
        resets = suc c.resets;
      } in
      (retry fd c₁, rw (now, ch) refl, retry-Tidy c₁ fd one (ap suc resets ∙ ap waiting (sym ch)))
]

pub reset_channel-Tidy : (c : Connector) → Tidy c → 1 ≤ c.resets → Tidy (reset_channel c)
unfolding reset_channel
reset_channel-Tidy c t some_wait = elim (Bool-cases (is_connecting c.state)) [
  | inl now ↦
      let (fd, ch, one, resets) = TidyIn-InUse c c.state now t in
      absurd (omega (arith, resets, some_wait))
  | inr other ↦
      let (nothing, resets) = TidyIn-Idle c c.state other t in
      Idle-TidyIn _ c.state other (nothing, at_most c.channel resets)
]
  where
    at_most : (ch : Option ℕ) → c.resets ≡ waiting ch → c.resets - 1 ≡ 0
    at_most none e = omega (arith, e)
    at_most (some fd) e = omega (arith, e)

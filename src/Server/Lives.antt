-- ===== src/Server/Lives.antt =====
-- Every connection from its name in the map to its end.
use muduo_pro.Common.{
  ℕ, suc, ◌+◌, ◌≤◌, ◌<◌, ◌≡◌, refl, sym, subst, ◌∙◌, inl, inr, false, false≢true, Option, none,
  some, arith, ltb, lt→ltb, ◌==◌, ==_iff, ==_refl, if◌then◌else◌, Bool-cases, bytes_eq,
  bytes_eq_iff,
}
use muduo_pro.Server.{
  ConnState, connecting, connected, disconnected, Conn, establish, remove, destroy, TcpServer,
  conn_name, put, set_object, queue_in_loop, is_connected, connect_established, connect_destroyed,
  remove_connection_in_loop,
}
use muduo_pro.Server.Names.{Fits, conn_name_injective}

-- What is known of a connection by its state, how many of its functors of each kind wait, and what
-- the map has under its name.
abbrev pub InState : ℕ → ConnState → ℕ → ℕ → ℕ → ℕ → Option ℕ → Type 0
InState id connecting destroyed e r d found =
    (e ≡ 1) × (r ≡ 0) × (d ≡ 0) × (destroyed ≡ 0) × (found ≡ some id)
InState id connected destroyed e r d found =
    (e ≡ 0) × (r ≡ 0) × (d ≡ 0) × (destroyed ≡ 0) × (found ≡ some id)
InState id disconnected destroyed e r d found =
    (e ≡ 0) × (r + d + destroyed ≡ 1) × (found ≡ (if ltb 0 r then some id else none))

abbrev pub Good : ℕ → Option Conn → ℕ → ℕ → ℕ → Option ℕ → Type 0
Good id none e r d found = (e ≡ 0) × (r ≡ 0) × (d ≡ 0) × (found ≡ none)
Good id (some c) e r d found = InState id c.state c.destroyed e r d found

abbrev pub GoodAt : TcpServer → ℕ → Type 0
GoodAt s id =
    Good id (s.objects id) (s.pending (establish id)) (s.pending (remove id))
      (s.pending (destroy id)) (s.connections (conn_name s id))

-- A connection whose connectEstablished waits has just been stored; one that is closed has one of
-- removeConnectionInLoop and connectDestroyed to come, or the latter behind it, and is in the map
-- while the former is to come.
pub record Valid (s : TcpServer) : Type 0 where
  pub good : (id : ℕ) → id < s.next_conn_id → GoodAt s id
  pub unused : (id : ℕ) → s.next_conn_id ≤ id → s.objects id ≡ none
  pub idle :
      (id : ℕ)
      → s.next_conn_id ≤ id
      → (s.pending (establish id) ≡ 0) × (s.pending (remove id) ≡ 0) × (s.pending (destroy id) ≡ 0)
  pub fits : (id : ℕ) → id < s.next_conn_id → Fits s.hostport id

-- Connection `i` is in a state with nothing to come, and all else is valid.
pub record Mid (s : TcpServer) (i : ℕ) (st : ConnState) (found : Option ℕ) : Type 0 where
  pub here : (c : Conn) × (s.objects i ≡ some c) × (c.state ≡ st) × (c.destroyed ≡ 0)
  pub no_establish : s.pending (establish i) ≡ 0
  pub no_remove : s.pending (remove i) ≡ 0
  pub no_destroy : s.pending (destroy i) ≡ 0
  pub mapped : s.connections (conn_name s i) ≡ found
  pub known : i < s.next_conn_id
  pub others : (id : ℕ) → (id == i) ≡ false → id < s.next_conn_id → GoodAt s id
  pub unused : (id : ℕ) → s.next_conn_id ≤ id → s.objects id ≡ none
  pub idle :
      (id : ℕ)
      → s.next_conn_id ≤ id
      → (s.pending (establish id) ≡ 0) × (s.pending (remove id) ≡ 0) × (s.pending (destroy id) ≡ 0)
  pub fits : (id : ℕ) → id < s.next_conn_id → Fits s.hostport id

pub differ : (i id n : ℕ) → i < n → n ≤ id → (id == i) ≡ false
differ i id n h k = ground arith

pub names_differ :
    (s : TcpServer) (i id : ℕ)
    → Fits s.hostport i
    → Fits s.hostport id
    → (id == i) ≡ false
    → bytes_eq (conn_name s id) (conn_name s i) ≡ false
names_differ s i id fi fid ne = elim (Bool-cases (bytes_eq (conn_name s id) (conn_name s i))) [
  | inr different ↦ different
  | inl alike ↦
      let e : id ≡ i =
        conn_name_injective s.name s.hostport id i fid fi
          ((bytes_eq_iff (conn_name s id) (conn_name s i)).0 alike) in
      absurd (false≢true (sym ne ∙ (==_iff id i).1 e))
]

everywhere :
    (s : TcpServer) (i : ℕ)
    → GoodAt s i
    → ((id : ℕ) → (id == i) ≡ false → id < s.next_conn_id → GoodAt s id)
    → (id : ℕ) → id < s.next_conn_id
    → GoodAt s id
everywhere s i here others id lt = elim (Bool-cases (id == i)) [
  | inl this ↦ subst (GoodAt s) (sym ((==_iff id i).0 this)) here
  | inr other ↦ others id other lt
]

-- Queueing connectEstablished or removeConnectionInLoop.
pub queue_establish :
    {s : TcpServer} {i : ℕ} → Mid s i connecting (some i) → Valid (queue_in_loop (establish i) s)
queue_establish {s} {i} m =
    let (c, o, st, k) = m.here in
    record {
      good =
          everywhere (queue_in_loop (establish i) s) i
            (rw (o, st, ==_refl i)
              (omega (arith, m.no_establish), m.no_remove, m.no_destroy, k, m.mapped))
            (λ id ne lt. rw ne (m.others id ne lt));
      unused = m.unused;
      idle = λ id le. rw (differ i id s.next_conn_id m.known le) (m.idle id le);
      fits = m.fits;
    }

pub queue_remove :
    {s : TcpServer} {i : ℕ} → Mid s i disconnected (some i) → Valid (queue_in_loop (remove i) s)
queue_remove {s} {i} m =
    let (c, o, st, k) = m.here in
    record {
      good =
          everywhere (queue_in_loop (remove i) s) i
            (rw (o, st, ==_refl i, lt→ltb 0 (suc (s.pending (remove i))) (omega arith))
              (m.no_establish, omega (arith, m.no_remove, m.no_destroy, k), m.mapped))
            (λ id ne lt. rw ne (m.others id ne lt));
      unused = m.unused;
      idle = λ id le. rw (differ i id s.next_conn_id m.known le) (m.idle id le);
      fits = m.fits;
    }

abbrev pub Keeps : Option TcpServer → Type 0
Keeps r = (s' : TcpServer) × (r ≡ some s') × Valid s'

pub established :
    {s : TcpServer} {i : ℕ} → Mid s i connecting (some i) → Keeps (connect_established i s)
unfolding connect_established
established {s} {i} m =
    let (c, o, st, k) = m.here in
    (
      record s { objects = set_object i (record c { state = connected }) s.objects },
      rw (o, st) refl,
      record {
        good =
            everywhere
              (record s { objects = set_object i (record c { state = connected }) s.objects }) i
              (rw (==_refl i) (m.no_establish, m.no_remove, m.no_destroy, k, m.mapped))
              (λ id ne lt. rw ne (m.others id ne lt));
        unused = λ id le. rw (differ i id s.next_conn_id m.known le) (m.unused id le);
        idle = m.idle;
        fits = m.fits;
      },
    )

pub removed :
    {s : TcpServer} {i : ℕ} → Mid s i disconnected (some i) → Keeps (remove_connection_in_loop i s)
unfolding remove_connection_in_loop
removed {s} {i} m =
    let (c, o, st, k) = m.here in
    let s' : TcpServer =
      queue_in_loop (destroy i)
        (record s { connections = put (conn_name s i) none s.connections }) in
    (
      s',
      rw m.mapped refl,
      record {
        good =
            everywhere s' i
              (rw
                (
                  o,
                  st,
                  ==_refl i,
                  (bytes_eq_iff (conn_name s i) (conn_name s i)).1 refl,
                  m.no_remove,
                )
                (m.no_establish, omega (arith, m.no_destroy, k), refl))
              (λ id ne lt.
                rw (ne, names_differ s i id (m.fits i m.known) (m.fits id lt) ne)
                  (m.others id ne lt));
        unused = m.unused;
        idle = λ id le. rw (differ i id s.next_conn_id m.known le) (m.idle id le);
        fits = m.fits;
      },
    )

pub destroyed_once :
    {s : TcpServer} {i : ℕ} → Mid s i disconnected none → Keeps (connect_destroyed i s)
unfolding connect_destroyed
destroyed_once {s} {i} m =
    let (c, o, st, k) = m.here in
    let s' : TcpServer = record s {
      objects =
          set_object i
            (record c {
              state = if is_connected c.state then disconnected else c.state;
              destroyed = suc c.destroyed;
            })
            s.objects;
    } in
    (
      s',
      rw o refl,
      record {
        good =
            everywhere s' i
              (rw (==_refl i, m.no_remove, st)
                (m.no_establish, omega (arith, m.no_destroy, k), m.mapped))
              (λ id ne lt. rw ne (m.others id ne lt));
        unused = λ id le. rw (differ i id s.next_conn_id m.known le) (m.unused id le);
        idle = m.idle;
        fits = m.fits;
      },
    )

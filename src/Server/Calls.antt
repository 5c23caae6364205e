-- ===== src/Server/Calls.antt =====
-- What the calls and functors do to a connection.
use muduo_pro.Common.{
  ℕ, suc, ◌+◌, ◌<◌, ◌^◌, ◌≡◌, refl, sym, ap, subst, ◌∙◌, inl, inr, Bool, false, Option, none, some,
  arith, ltb, ltb→lt, lt→ltb, ltb_false→le, le→ltb, ◌==◌, ==_iff, ==_refl, if◌then◌else◌,
  Bool-cases, Option-cases, bytes_eq_iff, ◌>>=◌, ◌>>◌, guard,
}
use muduo_pro.Server.{
  EventLoopThreadPool, get_next_loop, ConnState, connecting, connected, disconnected, Conn,
  establish, remove, destroy, TcpServer, conn_name, set_object, one_less, queue_in_loop,
  connect_established, remove_connection_in_loop, run_in_loop, add_connection, new_connection,
  close, Step, accepts, closes, calls, step,
}
use muduo_pro.Server.Names.{Fits}
use muduo_pro.Server.Lives.{
  InState, Good, Valid, Mid, differ, names_differ, queue_establish, queue_remove, Keeps,
  established, removed, destroyed_once,
}

-- What may come: a connection is accepted while its name fits and its
-- number is an int, and one that is connected is closed.
abbrev pub Enabled : Step → TcpServer → Type 0
Enabled accepts s =
    (suc s.next_conn_id < 2 ^ 31)
    × Fits s.hostport s.next_conn_id
    × ((loop : ℕ) × (pool : EventLoopThreadPool) × (get_next_loop s.pool ≡ some (loop, pool)))
Enabled (closes id) s = (c : Conn) × (s.objects id ≡ some c) × (c.state ≡ connected)
Enabled (calls f) s = 0 < s.pending f

accepts-Keeps : (s : TcpServer) → Valid s → Enabled accepts s → Keeps (new_connection s)
unfolding new_connection run_in_loop
accepts-Keeps s v (small, fits, (loop, pool, e)) =
    let n : ℕ = s.next_conn_id in
    let s₁ : TcpServer = add_connection loop pool s in
    let (e₀, r₀, d₀) = v.idle n (omega arith) in
    let m : Mid s₁ n connecting (some n) = record {
      here = (
        record { loop = loop; state = connecting; destroyed = 0 },
        rw (==_refl n) refl,
        refl,
        refl,
      );
      no_establish = e₀;
      no_remove = r₀;
      no_destroy = d₀;
      mapped = rw ((bytes_eq_iff (conn_name s n) (conn_name s n)).1 refl) refl;
      known = omega arith;
      others = λ id ne lt.
          rw (ne, names_differ s n id fits (v.fits id (below id n ne lt)) ne)
            (v.good id (below id n ne lt));
      unused = λ id le. rw (differ n id (suc n) (omega arith) le) (v.unused id (omega (arith, le)));
      idle = λ id le. v.idle id (omega (arith, le));
      fits = λ id lt. elim (Bool-cases (id == n)) [
        | inl this ↦ subst (Fits s.hostport) (sym ((==_iff id n).0 this)) fits
        | inr other ↦ v.fits id (below id n other lt)
      ];
    } in
    elim (Bool-cases (loop == s.pool.base_loop)) [
      | inl here ↦
          let (s', e', v') = established m in
          (
            s',
            accepted e
                ∙ ap
                    (λ now.
                      if now
                      then connect_established n s₁
                      else some (queue_in_loop (establish n) s₁))
                    here
                ∙ e',
            v',
          )
      | inr there ↦ (
        queue_in_loop (establish n) s₁,
        accepted e
            ∙ ap
                (λ now.
                  if now then connect_established n s₁ else some (queue_in_loop (establish n) s₁))
                there,
        queue_establish m,
      )
    ]
  where
    accepted :
        {loop : ℕ} {pool : EventLoopThreadPool}
        → get_next_loop s.pool ≡ some (loop, pool)
        → new_connection s ≡ (
            if loop == s.pool.base_loop
            then connect_established s.next_conn_id (add_connection loop pool s)
            else some (queue_in_loop (establish s.next_conn_id) (add_connection loop pool s)))
    accepted e =
        ap
          (λ b.
            guard b
            >> (get_next_loop s.pool >>= (λ r.
                run_in_loop (r.0 == s.pool.base_loop) (connect_established s.next_conn_id)
                  (establish s.next_conn_id) (add_connection (r.0) (r.1) s))))
          (lt→ltb (suc s.next_conn_id) (2 ^ 31) small)
        ∙ ap
            (λ o. o >>= (λ r.
              run_in_loop (r.0 == s.pool.base_loop) (connect_established s.next_conn_id)
                (establish s.next_conn_id) (add_connection (r.0) (r.1) s)))
            e

    below : (id n : ℕ) → (id == n) ≡ false → id < suc n → id < n
    below id n ne lt = ground arith

known_object :
    (s : TcpServer) (i : ℕ) (c : Conn) → Valid s → s.objects i ≡ some c → i < s.next_conn_id
known_object s i c v o = elim (Bool-cases (ltb i s.next_conn_id)) [
  | inl below ↦ ltb→lt i s.next_conn_id below
  | inr above ↦
      let gone : none ≡ some c = sym (v.unused i (ltb_false→le i s.next_conn_id above)) ∙ o in
      absurd cc
]

state_at :
    (s : TcpServer) (i : ℕ) (c : Conn) (st : ConnState)
    → Valid s
    → s.objects i ≡ some c
    → c.state ≡ st
    → InState i st c.destroyed
        (s.pending (establish i))
        (s.pending (remove i))
        (s.pending (destroy i))
        (s.connections (conn_name s i))
state_at s i c st v o e =
    subst
      (λ t.
        InState i t c.destroyed (s.pending (establish i)) (s.pending (remove i))
          (s.pending (destroy i)) (s.connections (conn_name s i)))
      e
      (subst
        (λ found.
          Good i found (s.pending (establish i)) (s.pending (remove i)) (s.pending (destroy i))
            (s.connections (conn_name s i)))
        o (v.good i (known_object s i c v o)))

closes-Keeps : (i : ℕ) (s : TcpServer) → Valid s → Enabled (closes i) s → Keeps (close i s)
unfolding close run_in_loop
closes-Keeps i s v (c, o, st) =
    let known : i < s.next_conn_id = known_object s i c v o in
    let (e₀, r₀, d₀, k, found) = state_at s i c connected v o st in
    let s₁ : TcpServer = record s {
      objects = set_object i (record c { state = disconnected }) s.objects;
    } in
    let chosen : Bool → Option TcpServer =
      λ now. if now then remove_connection_in_loop i s₁ else some (queue_in_loop (remove i) s₁) in
    let closed : close i s ≡ chosen (c.loop == s.pool.base_loop) = rw (o, st) refl in
    let m : Mid s₁ i disconnected (some i) = record {
      here = (record c { state = disconnected }, rw (==_refl i) refl, refl, k);
      no_establish = e₀;
      no_remove = r₀;
      no_destroy = d₀;
      mapped = found;
      known = known;
      others = λ id ne lt. rw ne (v.good id lt);
      unused = λ id le. rw (differ i id s.next_conn_id known le) (v.unused id le);
      idle = v.idle;
      fits = v.fits;
    } in
    elim (Bool-cases (c.loop == s.pool.base_loop)) [
      | inl here ↦ let (s', e', v') = removed m in (s', closed ∙ ap chosen here ∙ e', v')
      | inr there ↦ (queue_in_loop (remove i) s₁, closed ∙ ap chosen there, queue_remove m)
    ]

-- A functor that waits belongs to a connection.
waits_for :
    (s : TcpServer) (i : ℕ)
    → Valid s
    → 0 < s.pending (establish i) + s.pending (remove i) + s.pending (destroy i)
    → (c : Conn) × (s.objects i ≡ some c)
waits_for s i v waits = elim (Option-cases (s.objects i)) [
  | inr found ↦ found
  | inl nothing ↦ elim (Bool-cases (ltb i s.next_conn_id)) [
    | inr above ↦
        let (e₀, r₀, d₀) = v.idle i (ltb_false→le i s.next_conn_id above) in
        absurd (omega (arith, waits, e₀, r₀, d₀))
    | inl below ↦
        let (e₀, r₀, d₀, _) =
          subst
            (λ found.
              Good i found (s.pending (establish i)) (s.pending (remove i)) (s.pending (destroy i))
                (s.connections (conn_name s i)))
            nothing (v.good i (ltb→lt i s.next_conn_id below)) in
        absurd (omega (arith, waits, e₀, r₀, d₀))
  ]
]

calls_establish :
    (i : ℕ) (s : TcpServer)
    → Valid s
    → 0 < s.pending (establish i)
    → Mid (record s { pending = one_less (establish i) s.pending }) i connecting (some i)
calls_establish i s v waits =
    let (c, o) = waits_for s i v (omega (arith, waits)) in by_state c o c.state refl
  where
    by_state :
        (c : Conn)
        → s.objects i ≡ some c
        → (st : ConnState) → c.state ≡ st
        → Mid (record s { pending = one_less (establish i) s.pending }) i connecting (some i)
    by_state c o connecting st =
        let (e₀, r₀, d₀, k, found) = state_at s i c connecting v o st in
        let known : i < s.next_conn_id = known_object s i c v o in
        record {
          here = (c, o, st, k);
          no_establish = rw (==_refl i) (omega (arith, e₀));
          no_remove = r₀;
          no_destroy = d₀;
          mapped = found;
          known = known;
          others = λ id ne lt. rw ne (v.good id lt);
          unused = v.unused;
          idle = λ id le. rw (differ i id s.next_conn_id known le) (v.idle id le);
          fits = v.fits;
        }
    by_state c o connected st =
        let (e₀, r₀, d₀, k, found) = state_at s i c connected v o st in
        absurd (omega (arith, e₀, waits))
    by_state c o disconnected st =
        let (e₀, r₀, found) = state_at s i c disconnected v o st in
        absurd (omega (arith, e₀, waits))

calls_remove :
    (i : ℕ) (s : TcpServer)
    → Valid s
    → 0 < s.pending (remove i)
    → Mid (record s { pending = one_less (remove i) s.pending }) i disconnected (some i)
calls_remove i s v waits =
    let (c, o) = waits_for s i v (omega (arith, waits)) in by_state c o c.state refl
  where
    by_state :
        (c : Conn)
        → s.objects i ≡ some c
        → (st : ConnState) → c.state ≡ st
        → Mid (record s { pending = one_less (remove i) s.pending }) i disconnected (some i)
    by_state c o connecting st =
        let (e₀, r₀, d₀, k, found) = state_at s i c connecting v o st in
        absurd (omega (arith, r₀, waits))
    by_state c o connected st =
        let (e₀, r₀, d₀, k, found) = state_at s i c connected v o st in
        absurd (omega (arith, r₀, waits))
    by_state c o disconnected st =
        let (e₀, one, found) = state_at s i c disconnected v o st in
        let known : i < s.next_conn_id = known_object s i c v o in
        record {
          here = (c, o, st, omega (arith, one, waits));
          no_establish = e₀;
          no_remove = rw (==_refl i) (omega (arith, one));
          no_destroy = omega (arith, one, waits);
          mapped =
              found ∙ ap (λ t. if t then some i else none) (lt→ltb 0 (s.pending (remove i)) waits);
          known = known;
          others = λ id ne lt. rw ne (v.good id lt);
          unused = v.unused;
          idle = λ id le. rw (differ i id s.next_conn_id known le) (v.idle id le);
          fits = v.fits;
        }

calls_destroy :
    (i : ℕ) (s : TcpServer)
    → Valid s
    → 0 < s.pending (destroy i)
    → Mid (record s { pending = one_less (destroy i) s.pending }) i disconnected none
calls_destroy i s v waits =
    let (c, o) = waits_for s i v (omega (arith, waits)) in by_state c o c.state refl
  where
    by_state :
        (c : Conn)
        → s.objects i ≡ some c
        → (st : ConnState) → c.state ≡ st
        → Mid (record s { pending = one_less (destroy i) s.pending }) i disconnected none
    by_state c o connecting st =
        let (e₀, r₀, d₀, k, found) = state_at s i c connecting v o st in
        absurd (omega (arith, d₀, waits))
    by_state c o connected st =
        let (e₀, r₀, d₀, k, found) = state_at s i c connected v o st in
        absurd (omega (arith, d₀, waits))
    by_state c o disconnected st =
        let (e₀, one, found) = state_at s i c disconnected v o st in
        let known : i < s.next_conn_id = known_object s i c v o in
        record {
          here = (c, o, st, omega (arith, one, waits));
          no_establish = e₀;
          no_remove = omega (arith, one, waits);
          no_destroy = rw (==_refl i) (omega (arith, one));
          mapped =
              found
              ∙ ap (λ t. if t then some i else none)
                  (le→ltb 0 (s.pending (remove i)) (omega (arith, one, waits)));
          known = known;
          others = λ id ne lt. rw ne (v.good id lt);
          unused = v.unused;
          idle = λ id le. rw (differ i id s.next_conn_id known le) (v.idle id le);
          fits = v.fits;
        }

-- Any step that may come fails no assert and keeps the server valid: each connection is in the map
-- under its own name from newConnection to the one call of removeConnectionInLoop on it, its
-- connectEstablished comes first, and connectDestroyed follows once. This is while the names of
-- connections fit their 32 bytes.
pub step-Keeps :
    (x : Step) (s : TcpServer)
    → Enabled x s
    → Valid s
    → (s' : TcpServer) × (step x s ≡ some s') × Valid s'
unfolding step
step-Keeps accepts s en v = accepts-Keeps s v en
step-Keeps (closes id) s en v = closes-Keeps id s v en
step-Keeps (calls (establish id)) s en v =
    rw (lt→ltb 0 (s.pending (establish id)) en) (established (calls_establish id s v en))
step-Keeps (calls (remove id)) s en v =
    rw (lt→ltb 0 (s.pending (remove id)) en) (removed (calls_remove id s v en))
step-Keeps (calls (destroy id)) s en v =
    rw (lt→ltb 0 (s.pending (destroy id)) en) (destroyed_once (calls_destroy id s v en))

-- ===== src/AsyncLogging/Spares.antt =====
-- Which buffers are where: what every step keeps, and what becomes of the bytes.
use muduo_pro.Common.{
  ℕ, suc, ◌+◌, ◌-◌, ◌≤◌, ◌<◌, ◌≡◌, refl, sym, ap, ap₂, subst, ◌∙◌, inl, inr, Bool, true, false,
  false≢true, not, Option, none, some, List, [], ◌∷◌, ◌++◌, append_assoc, append-nil, arith, min,
  zero, length-take, ltb, ltb→lt, lt→ltb, ltb_false→le, Bool-cases, if◌then◌else◌, length, take,
  replicate, length-append, length-replicate, ◌>>◌, guard, le→ltb,
}
use muduo_pro.Logging.{FixedBuffer, avail, contents}
use muduo_pro.Logging.Format.{IsValid, append-Puts}
use muduo_pro.AsyncLogging.{
  Place, at_test, waiting, writing, ended, AsyncLogging, is_null, is_empty, texts, pop_back, reset,
  refill, new_buffer, started, next_or_new, append_line, collect, is_ready, begin_round, end_round,
  go_from, Step, appends, goes_on, stops, step,
}

abbrev pub text_in : Option FixedBuffer → List ℕ
text_in none = []
text_in (some b) = contents b

-- All bytes that were given to the file or wait for it, in order.
abbrev pub total : AsyncLogging → List ℕ
total s = s.written ++ (texts s.buffers_to_write ++ (texts s.buffers ++ text_in s.current_buffer))

pub texts-append : (bs cs : List FixedBuffer) → texts (bs ++ cs) ≡ texts bs ++ texts cs
texts-append [] cs = refl
texts-append (b ∷ bs) cs =
    ap (λ xs. contents b ++ xs) (texts-append bs cs)
    ∙ sym (append_assoc (contents b) (texts bs) (texts cs))

module _ (size : ℕ) (notice : ℕ → List ℕ) where
  abbrev pub IsBuffer : FixedBuffer → Type 0
  IsBuffer b = (length b.bytes ≡ size) × IsValid b

  abbrev pub IsFresh : FixedBuffer → Type 0
  IsFresh b = (length b.bytes ≡ size) × (b.cur ≡ 0)

  abbrev pub Holds : Option FixedBuffer → (FixedBuffer → Type 0) → Type 0
  Holds o P = (b : FixedBuffer) × (o ≡ some b) × P b

  abbrev pub OrNull : Option FixedBuffer → Type 0
  OrNull none = Unit {0}
  OrNull (some b) = IsFresh b

  abbrev pub AllBuffers : List FixedBuffer → Type 0
  AllBuffers [] = Unit {0}
  AllBuffers (b ∷ bs) = IsBuffer b × AllBuffers bs

  -- The spare buffers of the thread, where it is. Outside of the mutex it has given away the first, and
  -- perhaps the second, but then it has two buffers to write.
  abbrev pub RoundAt : Place → AsyncLogging → Type 0
  RoundAt at_test s =
      Holds s.new_buffer1 IsFresh × Holds s.new_buffer2 IsFresh × (s.buffers_to_write ≡ [])
  RoundAt waiting s =
      Holds s.new_buffer1 IsFresh × Holds s.new_buffer2 IsFresh × (s.buffers_to_write ≡ [])
  RoundAt writing s =
      (s.new_buffer1 ≡ none)
      × OrNull s.new_buffer2
      × (0 < length s.buffers_to_write)
      × (is_null s.new_buffer2 ≡ true → 2 ≤ length s.buffers_to_write)
      × AllBuffers s.buffers_to_write
  RoundAt ended s = Unit {0}

  pub record Valid (s : AsyncLogging) : Type 0 where
    pub current : Holds s.current_buffer IsBuffer
    pub next : OrNull s.next_buffer
    pub next_used : is_null s.next_buffer ≡ true → 0 < length s.buffers
    pub full : AllBuffers s.buffers
    pub round : RoundAt s.place s

  -- A line that no buffer can take is not logged.
  abbrev pub accepted : List ℕ → List ℕ
  accepted line = if ltb (length line) size then line else []

  -- The outcome of a step: it fails no assert, and unless buffers are dropped, the bytes are the
  -- earlier ones, in order, and then those that the step accepts.
  abbrev pub Moves : AsyncLogging → List ℕ → Option AsyncLogging → Type 0
  Moves s line result =
      (s' : AsyncLogging) × (result ≡ some s')
      × Valid s'
      × (s.dropped ≤ s'.dropped)
      × (s'.dropped ≡ s.dropped → total s' ≡ total s ++ line)

  AllBuffers-append :
      (bs : List FixedBuffer) (b : FixedBuffer)
      → AllBuffers bs
      → IsBuffer b
      → AllBuffers (bs ++ (b ∷ []))
  AllBuffers-append [] b _ v = (v, tt)
  AllBuffers-append (c ∷ bs) b (w, ws) v = (w, AllBuffers-append bs b ws v)

  next_or_new-IsFresh : (o : Option FixedBuffer) → OrNull o → IsFresh (next_or_new size notice o)
  next_or_new-IsFresh none f = (length-replicate size 0, refl)
  next_or_new-IsFresh (some b) f = f

  total-append :
      (w to_write held : List ℕ) (line : List ℕ)
      → w ++ (to_write ++ (held ++ line)) ≡ (w ++ (to_write ++ held)) ++ line
  total-append w t h line =
      ap (λ xs. w ++ xs) (sym (append_assoc t h line)) ∙ sym (append_assoc w (t ++ h) line)

  total-append_line :
      (w t bs : List ℕ) (old new line : List ℕ)
      → new ≡ old ++ line
      → w ++ (t ++ (bs ++ new)) ≡ (w ++ (t ++ (bs ++ old))) ++ line
  total-append_line w t bs old new line e =
      ap (λ xs. w ++ (t ++ xs)) (ap (λ xs. bs ++ xs) e ∙ sym (append_assoc bs old line))
      ∙ total-append w t (bs ++ old) line

  RoundAt-append :
      (p : Place) (s : AsyncLogging) (bs : List FixedBuffer) (current next : Option FixedBuffer)
      → RoundAt p s
      → RoundAt p (record s { buffers = bs; current_buffer = current; next_buffer = next })
  RoundAt-append at_test s bs current next r = r
  RoundAt-append waiting s bs current next r = r
  RoundAt-append writing s bs current next r = r
  RoundAt-append ended s bs current next r = r

  the_size : (b : FixedBuffer) → IsFresh b → avail b ≡ size
  the_size b (len, start) = omega (arith, len, start)

  append_line-Moves :
      (line : List ℕ) (s : AsyncLogging)
      → Valid s
      → Moves s (accepted line) (append_line size notice line s)
  unfolding append_line
  append_line-Moves line s v =
      let (c, is, ok) = v.current in
      elim (Bool-cases (ltb (length line) (avail c))) [
        | inl room ↦
            let (b, e, valid, same, text) = append-Puts line c (ok.1) in
            (
              record s { current_buffer = some b },
              rw (is, room, e) refl,
              record {
                current = (b, refl, (same ∙ ok.0, valid));
                next = v.next;
                next_used = v.next_used;
                full = v.full;
                round = RoundAt-append s.place s s.buffers (some b) s.next_buffer v.round;
              },
              omega arith,
              λ h.
                  total-append_line s.written (texts s.buffers_to_write) (texts s.buffers)
                    (text_in s.current_buffer) (contents b) (accepted line)
                    (text
                      ∙ ap₂ (λ xs ys. xs ++ ys) (ap text_in (sym is))
                          (fits (avail c) room (omega (arith, ok.0)))),
            )
        | inr full ↦
            let fresh : FixedBuffer = next_or_new size notice s.next_buffer in
            let f : IsFresh fresh = next_or_new-IsFresh s.next_buffer v.next in
            let (b, e, valid, same, text) = append-Puts line fresh (omega (arith, f.1)) in
            (
              record s {
                buffers = s.buffers ++ (c ∷ []);
                current_buffer = some b;
                next_buffer = none;
              },
              rw (is, full, e) refl,
              record {
                current = (b, refl, (same ∙ f.0, valid));
                next = tt;
                next_used = λ _. omega (arith, length-append s.buffers (c ∷ []));
                full = AllBuffers-append s.buffers c v.full ok;
                round = RoundAt-append s.place s (s.buffers ++ (c ∷ [])) (some b) none v.round;
              },
              omega arith,
              λ h.
                  ap (λ xs. s.written ++ (texts s.buffers_to_write ++ xs))
                    (ap₂ ◌++◌
                      (texts-append s.buffers (c ∷ [])
                        ∙ ap (λ xs. texts s.buffers ++ xs)
                            (append-nil (contents c) ∙ ap text_in (sym is)))
                      (text
                        ∙ ap₂
                            (λ k room.
                              take k fresh.bytes ++ (if ltb (length line) room then line else []))
                            (f.1) (the_size fresh f)))
                  ∙ total-append s.written (texts s.buffers_to_write)
                      (texts s.buffers ++ text_in s.current_buffer) (accepted line),
            )
      ]
    where
      fits :
          (room : ℕ)
          → ltb (length line) room ≡ true
          → room ≤ size
          → (if ltb (length line) room then line else []) ≡ accepted line
      fits room h le =
          rw (h, lt→ltb (length line) size (omega (arith, ltb→lt (length line) room h, le))) refl

  total-collect :
      (w : List ℕ) (to_write bs : List FixedBuffer) (current spare : Option FixedBuffer)
      (c b : FixedBuffer)
      → to_write ≡ []
      → current ≡ some c
      → spare ≡ some b
      → b.cur ≡ 0
      → w ++ (texts (bs ++ (c ∷ [])) ++ (texts to_write ++ text_in spare))
        ≡ (w ++ (texts to_write ++ (texts bs ++ text_in current))) ++ []
  total-collect w to_write bs current spare c b nothing is has start =
      rw (nothing, is, has, start)
        (ap (λ xs. w ++ xs)
            (append-nil (texts (bs ++ (c ∷ [])))
              ∙ texts-append bs (c ∷ [])
              ∙ ap (λ xs. texts bs ++ xs) (append-nil (contents c)))
          ∙ sym (append-nil (w ++ (texts bs ++ contents c))))

  collect-Moves :
      (s : AsyncLogging)
      → Valid s
      → Holds s.new_buffer1 IsFresh
      → Holds s.new_buffer2 IsFresh
      → s.buffers_to_write ≡ []
      → Moves s [] (collect s)
  unfolding collect
  collect-Moves s v (b₁, e₁, f₁) (b₂, e₂, f₂) nothing =
      let (c, is, ok) = v.current in
      let some_left : 0 < length (s.buffers ++ (c ∷ [])) =
        omega (arith, length-append s.buffers (c ∷ [])) in
      let current : Holds s.new_buffer1 IsBuffer = (b₁, e₁, (f₁.0, omega (arith, f₁.1))) in
      let none_left : AllBuffers s.buffers_to_write = subst AllBuffers (sym nothing) tt in
      let same =
        total-collect s.written s.buffers_to_write s.buffers s.current_buffer s.new_buffer1 c b₁
          nothing is e₁ (f₁.1) in
      elim (Bool-cases (is_null s.next_buffer)) [
        | inl used ↦ (
          record s {
            current_buffer = s.new_buffer1;
            new_buffer1 = none;
            buffers_to_write = s.buffers ++ (c ∷ []);
            buffers = s.buffers_to_write;
            place = writing;
            next_buffer = s.new_buffer2;
            new_buffer2 = none;
          },
          rw (is, used) refl,
          record {
            current = current;
            next = subst OrNull (sym e₂) f₂;
            next_used = λ h. absurd (false≢true (sym (ap is_null e₂) ∙ h));
            full = none_left;
            round = (
              refl,
              tt,
              some_left,
              λ _. omega (arith, v.next_used used, length-append s.buffers (c ∷ [])),
              AllBuffers-append s.buffers c v.full ok,
            );
          },
          omega arith,
          λ _. same,
        )
        | inr there ↦ (
          record s {
            current_buffer = s.new_buffer1;
            new_buffer1 = none;
            buffers_to_write = s.buffers ++ (c ∷ []);
            buffers = s.buffers_to_write;
            place = writing;
          },
          rw (is, there) refl,
          record {
            current = current;
            next = v.next;
            next_used = λ h. absurd (false≢true (sym there ∙ h));
            full = none_left;
            round = (
              refl,
              subst OrNull (sym e₂) f₂,
              some_left,
              λ h. absurd (false≢true (sym (ap is_null e₂) ∙ h)),
              AllBuffers-append s.buffers c v.full ok,
            );
          },
          omega arith,
          λ _. same,
        )
      ]

  passes {ℓ} :
      {A : Type ℓ} (test : Bool) (next : Option A) → test ≡ true → (guard test >> next) ≡ next
  passes test next e = rw e refl

  ready : (o : Option FixedBuffer) → Holds o IsFresh → is_ready o ≡ true
  ready o (b, e, f) = ap is_ready e ∙ ap not (le→ltb 0 b.cur (omega (arith, f.1)))

  begin_round-Moves :
      (s : AsyncLogging)
      → Valid s
      → s.place ≡ at_test
      → RoundAt at_test s
      → Moves s [] (begin_round s)
  unfolding begin_round
  begin_round-Moves s v at (h₁, h₂, nothing) =
      let body : Option AsyncLogging =
        if is_empty s.buffers then some (record s { place = waiting }) else collect s in
      let checked : begin_round s ≡ body =
        passes (is_ready s.new_buffer1)
          (guard (is_ready s.new_buffer2) >> (guard (is_empty s.buffers_to_write) >> body))
          (ready s.new_buffer1 h₁)
        ∙ passes (is_ready s.new_buffer2) (guard (is_empty s.buffers_to_write) >> body)
            (ready s.new_buffer2 h₂)
        ∙ passes (is_empty s.buffers_to_write) body (ap is_empty nothing) in
      elim (Bool-cases (is_empty s.buffers)) [
        | inl idle ↦ (
          record s { place = waiting },
          checked ∙ rw idle refl,
          record {
            current = v.current;
            next = v.next;
            next_used = v.next_used;
            full = v.full;
            round = (h₁, h₂, nothing);
          },
          omega arith,
          λ _. sym (append-nil (total s)),
        )
        | inr busy ↦
            let (s', e, v', more, same) = collect-Moves s v h₁ h₂ nothing in
            (s', checked ∙ rw busy e, v', more, same)
      ]

  pop_back-some :
      (bs : List FixedBuffer)
      → AllBuffers bs
      → 0 < length bs
      → (rest : List FixedBuffer) × (last : FixedBuffer) × (pop_back bs ≡ some (rest, last))
        × AllBuffers rest
        × IsBuffer last
        × (suc (length rest) ≡ length bs)
  pop_back-some [] _ h = absurd (omega (arith, h))
  pop_back-some (b ∷ []) (v, _) h = ([], b, refl, tt, v, refl)
  pop_back-some (b ∷ (c ∷ cs)) (v, vs) h =
      let (rest, last, e, all, ok, len) = pop_back-some (c ∷ cs) vs (omega arith) in
      (b ∷ rest, last, rw e refl, (v, all), ok, omega (arith, len))

  refill-some :
      (o : Option FixedBuffer) (bs : List FixedBuffer)
      → OrNull o
      → AllBuffers bs
      → (is_null o ≡ true → 0 < length bs)
      → (b : FixedBuffer) × (rest : List FixedBuffer) × (refill o bs ≡ some (some b, rest))
        × IsFresh b
        × AllBuffers rest
        × (length bs ≤ suc (length rest))
  refill-some (some b) bs f all left = (b, bs, refl, f, all, omega arith)
  refill-some none bs f all left =
      let (rest, last, e, all', ok, len) = pop_back-some bs all (left refl) in
      (reset last, rest, rw e refl, (ok.0, refl), all', omega (arith, len))

  AllBuffers-take : (n : ℕ) (bs : List FixedBuffer) → AllBuffers bs → AllBuffers (take n bs)
  AllBuffers-take zero bs v = tt
  AllBuffers-take (suc n) [] v = tt
  AllBuffers-take (suc n) (b ∷ bs) (v, vs) = (v, AllBuffers-take n bs vs)

  -- At most the first two.
  abbrev two : List FixedBuffer → List FixedBuffer
  two bs = if ltb 2 (length bs) then take 2 bs else bs

  two_lem :
      (bs : List FixedBuffer)
      → AllBuffers bs
      → AllBuffers (two bs) × (length (two bs) ≡ min (length bs) 2)
  two_lem bs v = elim (Bool-cases (ltb 2 (length bs))) [
    | inl more ↦
        rw more (AllBuffers-take 2 bs v, omega (arith, length-take 2 bs, ltb→lt 2 (length bs) more))
    | inr few ↦ rw few (v, omega (arith, ltb_false→le 2 (length bs) few))
  ]

  abbrev kept_of : List FixedBuffer → List FixedBuffer
  kept_of bs = if ltb 25 (length bs) then take 2 bs else bs

  kept_lem :
      (bs : List FixedBuffer)
      → AllBuffers bs
      → AllBuffers (kept_of bs) × (min (length bs) 2 ≤ length (kept_of bs))
  kept_lem bs v = elim (Bool-cases (ltb 25 (length bs))) [
    | inl more ↦ rw more (AllBuffers-take 2 bs v, omega (arith, length-take 2 bs))
    | inr few ↦ rw few (v, omega arith)
  ]

  total-end_round :
      (w held : List ℕ) (bs : List FixedBuffer) (n : ℕ)
      → n + (length bs - length (kept_of bs)) ≡ n
      → (w ++ ((if ltb 25 (length bs) then notice (length bs - 2) else []) ++ texts (kept_of bs)))
          ++ held
        ≡ (w ++ (texts bs ++ held)) ++ []
  total-end_round w held bs n h = elim (Bool-cases (ltb 25 (length bs))) [
    | inl more ↦ absurd (
        impossible more
          (subst (λ k. n + (length bs - length (if k then take 2 bs else bs)) ≡ n) more h))
    | inr few ↦ rw few (append_assoc w (texts bs) held ∙ sym (append-nil (w ++ (texts bs ++ held))))
  ]
    where
      impossible : ltb 25 (length bs) ≡ true → n + (length bs - length (take 2 bs)) ≡ n → ⊥
      impossible more e = omega (arith, e, ltb→lt 25 (length bs) more, length-take 2 bs)

  not_empty : (bs : List FixedBuffer) → 0 < length bs → is_empty bs ≡ false
  not_empty [] h = absurd (omega (arith, h))
  not_empty (b ∷ bs) h = refl

  end_round-Moves :
      (s : AsyncLogging)
      → Valid s
      → s.place ≡ writing
      → RoundAt writing s
      → Moves s [] (end_round size notice s)
  unfolding end_round
  end_round-Moves s v at (gone, f₂, some_left, left, all) =
      let kept : List FixedBuffer = kept_of s.buffers_to_write in
      let (all₀, len₀) = kept_lem s.buffers_to_write all in
      let (all₁, len₁) = two_lem kept all₀ in
      let (b₁, r₁, e₁, g₁, all₂, len₂) =
        refill-some s.new_buffer1 (two kept) (subst OrNull (sym gone) tt) all₁
          (λ _. omega (arith, len₀, len₁, some_left)) in
      let (b₂, r₂, e₂, g₂, _, _) =
        refill-some s.new_buffer2 r₁ f₂ all₂ (λ h. omega (arith, len₀, len₁, len₂, left h)) in
      (
        record s {
          written =
              s.written
              ++ ((if ltb 25 (length s.buffers_to_write)
                    then notice (length s.buffers_to_write - 2)
                    else [])
                  ++ texts kept);
          dropped = s.dropped + (length s.buffers_to_write - length kept);
          new_buffer1 = some b₁;
          new_buffer2 = some b₂;
          buffers_to_write = [];
          place = at_test;
        },
        rw (not_empty s.buffers_to_write some_left, e₁, e₂) refl,
        record {
          current = v.current;
          next = v.next;
          next_used = v.next_used;
          full = v.full;
          round = ((b₁, refl, g₁), (b₂, refl, g₂), refl);
        },
        omega arith,
        λ h.
            total-end_round s.written (texts s.buffers ++ text_in s.current_buffer)
              s.buffers_to_write s.dropped h,
      )

  abbrev pub has_ended : Place → Bool
  has_ended ended = true
  has_ended _ = false

  -- The thread of the logger does not go on once it has ended.
  abbrev pub Enabled : Step → AsyncLogging → Type 0
  Enabled goes_on s = has_ended s.place ≡ false
  Enabled _ s = 0 ≤ 0

  abbrev pub taken : Step → List ℕ
  taken (appends line) = accepted line
  taken _ = []

  go_from-Moves :
      (p : Place) (s : AsyncLogging)
      → s.place ≡ p
      → has_ended p ≡ false
      → RoundAt p s
      → Valid s
      → Moves s [] (go_from size notice p s)
  go_from-Moves at_test s at on r v =
      let chosen : Bool → Type 0 =
        λ runs. Moves s [] (if runs then begin_round s else some (record s { place = ended })) in
      elim (Bool-cases s.running) [
        | inl runs ↦ subst chosen (sym runs) (begin_round-Moves s v at r)
        | inr over ↦ subst chosen (sym over) (
          record s { place = ended },
          refl,
          record {
            current = v.current;
            next = v.next;
            next_used = v.next_used;
            full = v.full;
            round = tt;
          },
          omega arith,
          λ _. sym (append-nil (total s)),
        )
      ]
  go_from-Moves waiting s at on (h₁, h₂, nothing) v = collect-Moves s v h₁ h₂ nothing
  go_from-Moves writing s at on r v = end_round-Moves s v at r
  go_from-Moves ended s at on r v = absurd (false≢true (sym on))

  pub step-Moves :
      (x : Step) (s : AsyncLogging)
      → Enabled x s
      → Valid s
      → Moves s (taken x) (step size notice x s)
  unfolding step
  step-Moves (appends line) s en v = append_line-Moves line s v
  step-Moves goes_on s en v = go_from-Moves s.place s refl en v.round v
  step-Moves stops s en v = (
    record s { running = false },
    refl,
    record {
      current = v.current;
      next = v.next;
      next_used = v.next_used;
      full = v.full;
      round = RoundAt-stops s.place s v.round;
    },
    omega arith,
    λ _. sym (append-nil (total s)),
  )
    where
      RoundAt-stops :
          (p : Place) (s : AsyncLogging) → RoundAt p s → RoundAt p (record s { running = false })
      RoundAt-stops at_test s r = r
      RoundAt-stops waiting s r = r
      RoundAt-stops writing s r = r
      RoundAt-stops ended s r = r

  pub started-Valid : Valid (started size notice)
  started-Valid =
      let len : length (replicate size 0) ≡ size = length-replicate size 0 in
      let start : 0 ≤ length (replicate size 0) = omega arith in
      record {
        current = (new_buffer size notice, refl, (len, start));
        next = (len, refl);
        next_used = λ h. absurd (false≢true h);
        full = tt;
        round = (
          (new_buffer size notice, refl, (len, refl)),
          (new_buffer size notice, refl, (len, refl)),
          refl,
        );
      }

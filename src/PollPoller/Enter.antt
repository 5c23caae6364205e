-- ===== src/PollPoller/Enter.antt =====
-- `updateChannel` of PollPoller, for a channel that is new.
use muduo_pro.Common.{
  ℕ, ◌<◌, ◌≡◌, refl, sym, ap, subst, ◌∙◌, inl, inr, false, Option, none, some, some_injective, [],
  ◌∷◌, ◌++◌, arith, length, ◌==◌, ==_iff, ==_refl, Bool-cases, pos, length-append, ltb, ltb→lt,
  ltb_false→le,
}
use muduo_pro.Channel.{none_event}
use muduo_pro.Poller.{put}
use muduo_pro.PollPoller.{PollPoller, Pollfd, update_channel}
use muduo_pro.PollPoller.Slots.{
  get_elem?-old, get_elem?-new, get_elem?-in_range, put_at, put_off, At-kept, At, Valid, differ,
}

abbrev pub Keeps : Option PollPoller → Type 0
Keeps r = (s' : PollPoller) × (r ≡ some s') × Valid s'

-- What updateChannel does with a channel that is new.
module _ (p : ℕ) (s : PollPoller) where
  unfoldable pub new_entry : Pollfd
  new_entry = record {
    fd = pos (s.objects p).fd;
    events = (s.objects p).events;
    revents = none_event;
  }

  unfoldable pub entered : PollPoller
  entered = record s {
    pollfds = s.pollfds ++ (new_entry ∷ []);
    objects = put s.objects p (record (s.objects p) { index = some (length s.pollfds) });
    channels = put s.channels (s.objects p).fd (some p);
  }

  pub entered-At : At entered (s.objects p).fd p (length s.pollfds) new_entry
  unfolding entered new_entry
  entered-At = record {
    own = ap (λ c. c.fd) here;
    index = ap (λ c. c.index) here;
    entry = get_elem?-new s.pollfds new_entry;
    stands = ==_refl (s.objects p).fd;
  }
    where
      here :
          put s.objects p (record (s.objects p) { index = some (length s.pollfds) }) p
          ≡ record (s.objects p) { index = some (length s.pollfds) }
      here = put_at s.objects p (record (s.objects p) { index = some (length s.pollfds) })

  module _ (v : Valid s) (unknown : (s.objects p).index ≡ none)
      (free : s.channels (s.objects p).fd ≡ none) where
    other_fd : (fd q : ℕ) → s.channels fd ≡ some q → (fd == (s.objects p).fd) ≡ false
    other_fd fd q c =
        differ fd (s.objects p).fd (λ e. none_some (sym free ∙ sym (ap s.channels e) ∙ c))
      where
        none_some : none ≡ some q → ⊥
        none_some e = cc

    other_object : (fd q : ℕ) → s.channels fd ≡ some q → (q == p) ≡ false
    other_object fd q c =
        let (i, pfd, a) = v.at fd q c in
        differ q p
          (λ e. none_some i (sym unknown ∙ sym (ap (λ r. (s.objects r).index) e) ∙ a.index))
      where
        none_some : (i : ℕ) → none ≡ some i → ⊥
        none_some i e = cc

    entered_places :
        (fd q : ℕ) → entered.channels fd ≡ some q → (i : ℕ) × (pfd : Pollfd) × At entered fd q i pfd
    unfolding entered
    entered_places fd q c = elim (Bool-cases (fd == (s.objects p).fd)) [
      | inl e ↦
          let same : fd ≡ (s.objects p).fd = (==_iff fd (s.objects p).fd).0 e in
          let q_p : q ≡ p = some_injective (
            sym c
            ∙ ap (put s.channels (s.objects p).fd (some p)) same
            ∙ put_at s.channels (s.objects p).fd (some p)) in
          (
            length s.pollfds,
            new_entry,
            subst (λ d. At entered d q (length s.pollfds) new_entry) (sym same)
                (subst (λ r. At entered (s.objects p).fd r (length s.pollfds) new_entry) (sym q_p)
                  entered-At),
          )
      | inr e ↦
          let old : s.channels fd ≡ some q =
            sym (put_off s.channels (s.objects p).fd (some p) fd e) ∙ c in
          let (i, pfd, a) = v.at fd q old in
          (
            i,
            pfd,
            At-kept s entered fd q i pfd a
                (put_off s.objects p (record (s.objects p) { index = some (length s.pollfds) }) q
                  (other_object fd q old))
                (get_elem?-old s.pollfds (new_entry ∷ []) i
                    (get_elem?-in_range s.pollfds i pfd a.entry)
                  ∙ a.entry),
          )
    ]

    entered-slot :
        (i : ℕ)
        → i < length entered.pollfds
        → (fd q : ℕ) × (entered.channels fd ≡ some q) × ((entered.objects q).index ≡ some i)
    unfolding entered
    entered-slot i lt = elim (Bool-cases (ltb i (length s.pollfds))) [
      | inl below ↦
          let (fd, q, c, x) = v.slot i (ltb→lt i (length s.pollfds) below) in
          (
            fd,
            q,
            put_off s.channels (s.objects p).fd (some p) fd (other_fd fd q c) ∙ c,
            ap (λ r. r.index)
                  (put_off s.objects p (record (s.objects p) { index = some (length s.pollfds) }) q
                    (other_object fd q c))
                ∙ x,
          )
      | inr above ↦
          let last : length s.pollfds ≡ i = omega (
            arith,
            lt,
            ltb_false→le i (length s.pollfds) above,
            length-append s.pollfds (new_entry ∷ []),
          ) in
          (
            (s.objects p).fd,
            p,
            put_at s.channels (s.objects p).fd (some p),
            ap (λ r. r.index)
                  (put_at s.objects p (record (s.objects p) { index = some (length s.pollfds) }))
                ∙ ap some last,
          )
    ]

    pub entered-Valid : Valid entered
    entered-Valid = record { at = entered_places; slot = entered-slot }

    -- A new channel: not known, and its descriptor not in use.
    update_new : Keeps (update_channel p s)
    unfolding update_channel entered new_entry
    update_new = (entered, rw (unknown, free) refl, entered-Valid)

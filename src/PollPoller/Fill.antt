-- ===== src/PollPoller/Fill.antt =====
-- `fillActiveChannels` of PollPoller.
use muduo_pro.Common.{
  ℕ, zero, suc, ◌≡◌, refl, sym, ap, ◌∙◌, inl, inr, Bool, true, false, some, some_injective, List,
  [], ◌∷◌, get_elem?, ◌==◌, ==_iff, Bool-cases, ℤ, pos, negsuc,
}
use muduo_pro.Channel.{Events, is_zero}
use muduo_pro.Poller.{put}
use muduo_pro.PollPoller.{PollPoller, Pollfd, stands_for, look_up, fill_from, fill_active_channels}
use muduo_pro.PollPoller.Slots.{get_elem?-in_range, Valid}

-- poll reports nothing for an entry that is ignored.
abbrev pub QuietWhenIgnored : List Pollfd → Type 0
QuietWhenIgnored pfds =
    (i n : ℕ) (pfd : Pollfd)
    → get_elem? pfds i ≡ some pfd
    → pfd.fd ≡ negsuc n
    → is_zero pfd.revents ≡ true

-- Each entry that has come has the channel of its descriptor.
abbrev Owned : List Pollfd → PollPoller → Type 0
Owned pfds s =
    (i : ℕ) (pfd : Pollfd)
    → get_elem? pfds i ≡ some pfd
    → is_zero pfd.revents ≡ false
    → (p : ℕ) × (look_up pfd.fd s.channels ≡ some p) × (stands_for pfd.fd (s.objects p).fd ≡ true)

-- The entry's events are given to its channel.
came_to : ℕ → Events → PollPoller → PollPoller
came_to p ev s = record s { objects = put s.objects p (record (s.objects p) { revents = ev }) }

module _ (p : ℕ) (ev : Events) (s : PollPoller) where
  came_to-fd : (q : ℕ) → ((came_to p ev s).objects q).fd ≡ (s.objects q).fd
  unfolding came_to
  came_to-fd q = elim (Bool-cases (q == p)) [
    | inl e ↦ rw e (ap (λ r. (s.objects r).fd) (sym ((==_iff q p).0 e)))
    | inr e ↦ rw e refl
  ]

  came_to-index : (q : ℕ) → ((came_to p ev s).objects q).index ≡ (s.objects q).index
  unfolding came_to
  came_to-index q = elim (Bool-cases (q == p)) [
    | inl e ↦ rw e (ap (λ r. (s.objects r).index) (sym ((==_iff q p).0 e)))
    | inr e ↦ rw e refl
  ]

  came_to-Valid : Valid s → Valid (came_to p ev s)
  unfolding came_to
  came_to-Valid v = record {
    at = λ fd q c.
        let (i, pfd, a) = v.at fd q c in
        (
          i,
          pfd,
          record {
            own = came_to-fd q ∙ a.own;
            index = came_to-index q ∙ a.index;
            entry = a.entry;
            stands = a.stands;
          },
        );
    slot = λ i lt. let (fd, q, c, x) = v.slot i lt in (fd, q, c, came_to-index q ∙ x);
  }

  came_to-Owned : (pfds : List Pollfd) → Owned pfds s → Owned pfds (came_to p ev s)
  unfolding came_to
  came_to-Owned pfds o i pfd e busy =
      let (q, c, st) = o i pfd e busy in (q, c, ap (stands_for pfd.fd) (came_to-fd q) ∙ st)

fill_from_lem :
    (pfds : List Pollfd) (n : ℕ) (s : PollPoller)
    → Valid s
    → Owned pfds s
    → (active : List ℕ) × (s' : PollPoller) × (fill_from pfds n s ≡ some (active, s')) × Valid s'
unfolding fill_from came_to
fill_from_lem [] n s v o = ([], s, refl, v)
fill_from_lem (pfd ∷ rest) zero s v o = ([], s, refl, v)
fill_from_lem (pfd ∷ rest) (suc n) s v o = elim (Bool-cases (is_zero pfd.revents)) [
  | inl quiet ↦
      let (active, s', e, w) = fill_from_lem rest (suc n) s v (λ i. o (suc i)) in
      (active, s', rw (quiet, fill_from) e, w)
  | inr busy ↦
      let (p, c, st) = o 0 pfd refl busy in
      let (active, s', e, w) =
        fill_from_lem rest n (came_to p pfd.revents s) (came_to-Valid p pfd.revents s v)
          (came_to-Owned p pfd.revents s rest (λ i. o (suc i))) in
      (p ∷ active, s', rw (busy, c, st, e, fill_from) refl, w)
]

-- Whatever poll reports, and whatever their number, fillActiveChannels fails no assert when nothing
-- is reported for an ignored entry, and it keeps the vector and the map in step.
fill_active_channels_lem :
    (n : ℕ) (s : PollPoller)
    → Valid s
    → QuietWhenIgnored s.pollfds
    → (active : List ℕ) × (s' : PollPoller) × (fill_active_channels n s ≡ some (active, s'))
      × Valid s'
unfolding fill_active_channels
fill_active_channels_lem n s v quiet =
    fill_from_lem s.pollfds n s v (λ i pfd e busy. owner i pfd.fd pfd refl e busy)
  where
    no_ignored : (b : Bool) → b ≡ true → b ≡ false → ⊥
    no_ignored b t f = cc

    owner :
        (i : ℕ) (z : ℤ) (pfd : Pollfd)
        → pfd.fd ≡ z
        → get_elem? s.pollfds i ≡ some pfd
        → is_zero pfd.revents ≡ false
        → (p : ℕ) × (look_up z s.channels ≡ some p) × (stands_for z (s.objects p).fd ≡ true)
    owner i (negsuc n) pfd same e busy =
        absurd (no_ignored (is_zero pfd.revents) (quiet i n pfd e same) busy)
    owner i (pos n) pfd same e busy =
        let (fd, q, c, x) = v.slot i (get_elem?-in_range s.pollfds i pfd e) in
        let (j, b, a) = v.at fd q c in
        let ji : j ≡ i = some_injective (sym a.index ∙ x) in
        let one : b ≡ pfd = some_injective (sym a.entry ∙ ap (get_elem? s.pollfds) ji ∙ e) in
        let stands : (n == fd) ≡ true =
          sym (ap (λ r. stands_for r fd) (ap (λ r. r.fd) one ∙ same)) ∙ a.stands in
        (q, ap s.channels ((==_iff n fd).0 stands) ∙ c, ap (λ f. n == f) a.own ∙ stands)

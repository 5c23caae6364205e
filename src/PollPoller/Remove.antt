-- ===== src/PollPoller/Remove.antt =====
-- `removeChannel` of PollPoller.
use muduo_pro.Common.{
  ℕ, suc, ◌-◌, ◌≡◌, refl, sym, subst, ◌∙◌, inl, inr, true, false, none, some, some_injective, arith,
  length, ◌==◌, ==_iff, ==_refl, Bool-cases, length-take,
}
use muduo_pro.Channel.{is_zero}
use muduo_pro.PollPoller.{PollPoller, Pollfd, is_ignored, take_off, remove_channel}
use muduo_pro.PollPoller.Slots.{put_at, put_off, At, Valid, plain}
use muduo_pro.PollPoller.Taken.{
  freed, in_range, popped, popped-Valid, swapped, swapped-Valid, length-swapped, i_apart,
  different_fds,
}

-- What is left when the entry has been taken off.
pub record Removed (s s' : PollPoller) (fd : ℕ) : Type 0 where
  pub valid : Valid s'
  pub gone : s'.channels fd ≡ none
  pub others : (fd' : ℕ) → (fd' == fd) ≡ false → s'.channels fd' ≡ s.channels fd'
  pub one_less : suc (length s'.pollfds) ≡ length s.pollfds

module _ (s : PollPoller) (fd p i : ℕ) (pfd : Pollfd) (v : Valid s) (known : s.channels fd ≡ some p)
    (a : At s fd p i pfd) where
  without : PollPoller
  without = record s { channels = freed s fd p i pfd v known a }

  checks_pass :
      is_ignored pfd.fd fd ≡ true
      → is_zero pfd.events ≡ true
      → is_zero (s.objects p).events ≡ true
      → remove_channel p s ≡ take_off i without
  unfolding remove_channel without freed
  checks_pass ignored unused disabled =
      rw (a.own, known, ==_refl p, disabled, a.index, a.entry, ignored, unused) refl

  takes_last :
      suc i ≡ length s.pollfds
      → (s' : PollPoller) × (take_off i without ≡ some s') × Removed s s' fd
  unfolding take_off without popped freed
  takes_last is_last = (
    popped s fd p i pfd v known a is_last,
    rw ((==_iff (suc i) (length s.pollfds)).1 is_last) refl,
    record {
      valid = popped-Valid s fd p i pfd v known a is_last;
      gone = put_at s.channels fd none;
      others = put_off s.channels fd none;
      one_less = omega (arith, is_last, length-take (length s.pollfds - 1) s.pollfds);
    },
  )

  takes_inner :
      (suc i == length s.pollfds) ≡ false
      → (s' : PollPoller) × (take_off i without ≡ some s') × Removed s s' fd
  unfolding take_off without swapped freed
  takes_inner inner =
      let (fd_l, q, c, x) =
        v.slot (length s.pollfds - 1) (omega (arith, in_range s fd p i pfd v known a)) in
      let (j, last, b) = v.at fd_l q c in
      let e : j ≡ length s.pollfds - 1 = some_injective (sym b.index ∙ x) in
      let at_l : At s fd_l q (length s.pollfds - 1) last = subst (λ n. At s fd_l q n last) e b in
      let still : freed s fd p i pfd v known a fd_l ≡ some q =
        put_off s.channels fd none fd_l (
          different_fds s fd fd_l p q i (length s.pollfds - 1) known c a.index x
            (i_apart s fd p i pfd v known a fd_l q last inner c at_l))
        ∙ c in
      (
        swapped s fd p i pfd v known a fd_l q last inner c at_l,
        rw (inner, a.entry, at_l.entry, plain last.fd fd_l at_l.stands, still) refl,
        record {
          valid = swapped-Valid s fd p i pfd v known a fd_l q last inner c at_l;
          gone = put_at s.channels fd none;
          others = put_off s.channels fd none;
          one_less = omega (
            arith,
            length-swapped s fd p i pfd v known a fd_l q last inner c at_l,
            in_range s fd p i pfd v known a,
          );
        },
      )

-- removeChannel of a channel that is known and has no event, neither of its own nor in its entry,
-- which is ignored, fails no assert: it takes the channel from the map and one entry from the vector,
-- leaves the other channels in the map, and keeps the vector and the map in step.
pub remove_channel-Removed :
    (s : PollPoller) (fd p i : ℕ) (pfd : Pollfd)
    → Valid s
    → s.channels fd ≡ some p
    → At s fd p i pfd
    → is_ignored pfd.fd fd ≡ true
    → is_zero pfd.events ≡ true
    → is_zero (s.objects p).events ≡ true
    → (s' : PollPoller) × (remove_channel p s ≡ some s') × Removed s s' fd
remove_channel-Removed s fd p i pfd v known a ignored unused disabled =
    let passes = checks_pass s fd p i pfd v known a ignored unused disabled in
    elim (Bool-cases (suc i == length s.pollfds)) [
      | inl is_last ↦
          let (s', e, r) =
            takes_last s fd p i pfd v known a ((==_iff (suc i) (length s.pollfds)).0 is_last) in
          (s', passes ∙ e, r)
      | inr inner ↦ let (s', e, r) = takes_inner s fd p i pfd v known a inner in (s', passes ∙ e, r)
    ]

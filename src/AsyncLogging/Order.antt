-- ===== src/AsyncLogging/Order.antt =====
-- The log, through any interleaving of its threads.
use muduo_pro.Common.{
  ℕ, ◌≤◌, ◌≡◌, sym, ap, subst, ◌∙◌, some, some_injective, List, [], ◌++◌, append_assoc, append-nil,
  arith,
}
use muduo_pro.AsyncLogging.{AsyncLogging, started, Step, step}
use muduo_pro.AsyncLogging.Spares.{total, Valid, Enabled, taken, step-Moves, started-Valid}

module _ (size : ℕ) (notice : ℕ → List ℕ) where
  -- A history of the logger, with the bytes of the lines that it accepts.
  pub data Run : AsyncLogging → AsyncLogging → List ℕ → Type 0 where
    stop : {s : AsyncLogging} → Run s s []
    next :
        {s s' s'' : AsyncLogging} {bytes : List ℕ} (x : Step)
        → Enabled size notice x s
        → step size notice x s ≡ some s'
        → Run s' s'' bytes
        → Run s s'' (taken size notice x ++ bytes)

  run-keeps :
      {s s' : AsyncLogging} {bytes : List ℕ}
      → Run s s' bytes
      → Valid size notice s
      → Valid size notice s'
        × (s.dropped ≤ s'.dropped)
        × (s'.dropped ≡ s.dropped → total s' ≡ total s ++ bytes)
  run-keeps {s} stop v = (v, omega arith, λ _. sym (append-nil (total s)))
  run-keeps {s} {s'} (next {s' = t} {bytes = bytes} x en e rest) v =
      let (s₁, e₁, v₁, more₁, same₁) = step-Moves size notice x s en v in
      let (v₂, more₂, same₂) =
        subst
          (λ u.
            Valid size notice u
            × (s.dropped ≤ u.dropped)
            × (u.dropped ≡ s.dropped → total u ≡ total s ++ taken size notice x))
          (some_injective (sym e₁ ∙ e)) (v₁, more₁, same₁) in
      let (v₃, more₃, same₃) = run-keeps rest v₂ in
      (
        v₃,
        omega (arith, more₂, more₃),
        λ h.
            same₃ (omega (arith, more₂, more₃, h))
            ∙ ap (λ xs. xs ++ bytes) (same₂ (omega (arith, more₂, more₃, h)))
            ∙ append_assoc (total s) (taken size notice x) bytes,
      )

  -- After any history of a started logger, with lines from any threads, no assert has failed and every
  -- pointer that is used next is there; and unless buffers were dropped, the bytes written to the file
  -- followed by those that wait in buffers are the lines that were accepted, in order. A line is
  -- accepted if it is shorter than a buffer.
  pub Run-log :
      {s : AsyncLogging} {bytes : List ℕ}
      → Run (started size notice) s bytes
      → Valid size notice s × (s.dropped ≡ 0 → total s ≡ bytes)
  Run-log history = let (v, _, same) = run-keeps history (started-Valid size notice) in (v, same)

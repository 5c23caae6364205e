-- ===== src/Latch/Waits.antt =====
-- No thread returns from `wait` too early, and none sleeps for ever.
use muduo_pro.Common.{◌≡◌, ◌⊎◌, true, false}
use muduo_pro.Latch.{Latch, is_positive}

-- While the count is positive no thread has returned, and otherwise none sleeps.
abbrev pub Valid : Latch → Type 0
Valid l =
    ((is_positive l.count ≡ true) × (l.released ≡ 0))
    ⊎ ((is_positive l.count ≡ false) × (l.sleeping ≡ 0))

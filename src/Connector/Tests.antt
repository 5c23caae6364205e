-- ===== src/Connector/Tests.antt =====
-- Runs of a connector, and its theorems at concrete connectors.
use muduo_pro.Common.{◌≡◌, refl, true, some, [], ◌∷◌, ◌++◌, none}
use muduo_pro.Connector.{
  Connector, new_connector, connecting, start, start_in_loop, connect, begin_connecting,
}
use muduo_pro.Connector.Delay.{retries, back_off, retries-back_off}
use muduo_pro.Connector.Steps.{timer_fired, step}

-- Socket 5 is connecting.
abbrev trying : Connector
trying = record {
  state = connecting;
  wants_connection = true;
  retry_delay_ms = 500;
  channel = some 5;
  watched = true;
  resets = 0;
  timers = [];
  open_sockets = 5 ∷ [];
  handed = [];
}

-- `connect` on a socket that does not block leaves EINPROGRESS.
start-trying : start 5 115 new_connector ≡ some trying
unfolding start start_in_loop connect begin_connecting new_connector
start-trying = refl

-- The fourth delay is 4 s, the last two are at the limit.
back_off_delays :
    back_off (1 ∷ 2 ∷ 3 ∷ 4 ∷ 5 ∷ 6 ∷ 7 ∷ 8 ∷ []) 500
    ≡ 500 ∷ 1000 ∷ 2000 ∷ 4000 ∷ 8000 ∷ 16000 ∷ 30000 ∷ 30000 ∷ []
unfolding back_off
back_off_delays = refl

retries-back_off_example : (retries (5 ∷ 6 ∷ []) trying).timers ≡ [] ++ back_off (5 ∷ 6 ∷ []) 500
retries-back_off_example = retries-back_off (5 ∷ 6 ∷ []) 500 trying refl refl

-- A timer of an earlier retry.
late_timer : step (timer_fired 6 0) trying ≡ none
unfolding step start_in_loop
late_timer = refl

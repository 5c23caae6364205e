-- ===== src/Rpc/Tests.antt =====
-- The codec at concrete bytes: messages are bytes, with their number as the checksum.
use muduo_pro.Common.{
  ℕ, suc, ◌+◌, ◌≡◌, refl, inl, some, List, [], ◌∷◌, ◌++◌, map, arith, length, codes, replicate,
  take,
}
use muduo_pro.Buffer.{Buffer}
use muduo_pro.Buffer.Shape.{Holds}
use muduo_pro.Buffer.Numbers.{to_network}
use muduo_pro.Rpc.RoundTrip.{on_message-send}
use muduo_pro.Rpc.{
  Libraries, IsDocumented, send, message_callback, on_message, ended, more_rounds, error_callback,
  invalid_length,
}
use muduo_pro.Rpc.Frames.{frame}
use muduo_pro.Rpc.Stream.{part, nothing, accept, frames, on_message_lem, on_message_stuck}

abbrev plain : Libraries
plain = record {
  RpcMessage = List ℕ;
  serialize = λ bytes. bytes;
  parse_from_array = λ bytes. some bytes;
  adler32 = λ bytes. length bytes;
}

plain-IsDocumented : IsDocumented plain
plain-IsDocumented = record { parses = λ m. refl }

on_message-send_example :
    (b b' : Buffer) × (send plain (codes "hi") ≡ some b)
    × (on_message plain (λ code b. b) 2 b ≡ ended (message_callback (codes "hi") ∷ []) b')
    × Holds b' []
on_message-send_example =
    on_message-send plain plain-IsDocumented (λ code b. b) (codes "hi") (omega arith)

-- The frame of "hi" and three bytes of another.
abbrev some_bytes : List ℕ
some_bytes = frames plain (codes "hi" ∷ []) (take 3 (frame plain (codes "more")))

abbrev some_buffer : Buffer
some_buffer = record {
  buffer = replicate 8 0 ++ some_bytes;
  reader_index = 8;
  writer_index = 8 + length some_bytes;
}

some_buffer-Holds : Holds some_buffer some_bytes
unfolding to_network
some_buffer-Holds = (omega arith, refl)

on_message_lem_example :
    (b' : Buffer) × (on_message plain (λ code b. b) (suc (length (codes "hi" ∷ []))) some_buffer
      ≡ ended (map message_callback (codes "hi" ∷ [])) b')
    × Holds b' (take 3 (frame plain (codes "more")))
on_message_lem_example =
    on_message_lem plain (λ code b. b) (accept (codes "hi") (codes "hi") (omega arith) refl nothing)
      (part (codes "more") 3 (omega arith) (omega arith)) some_buffer-Holds

-- A length of 5.
abbrev bad_buffer : Buffer
bad_buffer = record {
  buffer = replicate 11 0 ++ (5 ∷ codes "RPC0abcd");
  reader_index = 8;
  writer_index = 20;
}

bad_buffer-Holds : Holds bad_buffer (to_network 4 5 ++ codes "RPC0abcd")
unfolding to_network
bad_buffer-Holds = (omega arith, refl)

on_message_stuck_example :
    on_message plain (λ code b. b) 20 bad_buffer
    ≡ more_rounds (replicate 20 (error_callback invalid_length)) bad_buffer
on_message_stuck_example =
    on_message_stuck plain (codes "RPC0abcd") 5 bad_buffer-Holds (omega arith) (omega arith)
      (inl (omega arith)) 20

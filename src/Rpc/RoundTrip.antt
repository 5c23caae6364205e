-- ===== src/Rpc/RoundTrip.antt =====
-- A message from `send` to `onMessage`.
use muduo_pro.Common.{◌+◌, ◌≤◌, ◌≡◌, sym, subst, some, [], ◌∷◌, ◌++◌, append-nil, arith, length}
use muduo_pro.Buffer.{Buffer}
use muduo_pro.Buffer.Shape.{Holds}
use muduo_pro.Rpc.{
  Libraries, IsDocumented, ErrorCode, message_callback, ended, send, on_message, max_message_len,
}
use muduo_pro.Rpc.Frames.{frame}
use muduo_pro.Rpc.Stream.{part, nothing, accept, on_message_lem}
use muduo_pro.Rpc.Send.{send_lem}

-- What `send` gives to the connection, `onMessage` of the other side turns into one call with the same
-- message, and it leaves an empty buffer, if the message and the 8 bytes around it are at most 64M,
-- and protobuf reads what it wrote.
pub on_message-send :
    (libs : Libraries) (documented : IsDocumented libs) (on_error : ErrorCode → Buffer → Buffer)
    (m : libs.RpcMessage)
    → 8 + length (libs.serialize m) ≤ max_message_len
    → (b b' : Buffer) × (send libs m ≡ some b)
      × (on_message libs on_error 2 b ≡ ended (message_callback m ∷ []) b')
      × Holds b' []
on_message-send libs documented on_error m small =
    let (b, e, h) = send_lem libs m (omega (arith, small)) in
    let whole : Holds b (frame libs (libs.serialize m) ++ []) =
      subst (Holds b) (sym (append-nil (frame libs (libs.serialize m)))) h in
    let (b', e', h') =
      on_message_lem libs on_error (accept (libs.serialize m) m small (documented.parses m) nothing)
        (part [] 0 (omega arith) (omega arith)) whole in
    (b, b', e, e', h')

-- ===== src/Rpc/Send.antt =====
-- What `send` puts on the wire, and that the other side gets the message back.
use muduo_pro.Common.{
  ℕ, ◌+◌, ◌^◌, ◌%◌, ◌<◌, ◌≤◌, ◌≡◌, ap, ◌∙◌, some, List, ◌++◌, arith, length, length-append, codes,
  add_size, length-splice, ==_refl, take_all,
}
use muduo_pro.Buffer.{
  Buffer, new, readable_bytes, bytes_at, append, has_written, prepend, cheap_prepend,
}
use muduo_pro.Buffer.Shape.{Shape, Shape-readable, Shape-length, Holds, Shape-Holds}
use muduo_pro.Buffer.Room.{ensure_writable_bytes-MakesRoom}
use muduo_pro.Buffer.Retrieve.{bytes_at-Shape, copy_to-some}
use muduo_pro.Buffer.Write.{append-Shape_front, write-Shape, prepend-Shape}
use muduo_pro.Buffer.Content.{new-Shape}
use muduo_pro.Buffer.Numbers.{to_network, length-to_network, append_int}
use muduo_pro.Rpc.{Libraries, seal, send}
use muduo_pro.Rpc.Frames.{frame}

module _ (libs : Libraries) where
  seal-some :
      (b b₁ b₂ : Buffer) (xs : List ℕ) (n : ℕ)
      → readable_bytes b ≡ length xs
      → bytes_at b.buffer b.reader_index (length xs) ≡ some xs
      → append b (to_network 4 (libs.adler32 xs % 2 ^ 32)) ≡ some b₁
      → readable_bytes b₁ ≡ 4 + n + 4
      → n < 2 ^ 30
      → prepend b₁ (to_network 4 (8 + n)) ≡ some b₂
      → seal libs n b ≡ some b₂
  unfolding seal append_int
  seal-some b b₁ b₂ xs n len content e₁ size small e₂ =
      rw (len, content, e₁, size, ==_refl (4 + n + 4), wrapped n small) e₂
    where
      wrapped : (n : ℕ) → n < 2 ^ 30 → (4 + n + 4) % 2 ^ 32 ≡ 8 + n
      wrapped n h = omega arith

  seal-Shape :
      {b : Buffer} {xs : List ℕ} (n : ℕ)
      → Shape b xs
      → length xs ≡ 4 + n
      → n < 2 ^ 30
      → length b.buffer < 2 ^ 32
      → cheap_prepend ≤ b.reader_index
      → (b' : Buffer) × (seal libs n b ≡ some b')
        × Shape b' (to_network 4 (8 + n) ++ (xs ++ to_network 4 (libs.adler32 xs % 2 ^ 32)))
  seal-Shape {b} {xs} n s len small short front =
      let sum : List ℕ = to_network 4 (libs.adler32 xs % 2 ^ 32) in
      let four : length sum ≡ 4 = length-to_network 4 (libs.adler32 xs % 2 ^ 32) in
      let (b₁, e₁, s₁, size₁, front₁) = append-Shape_front sum s (omega (arith, short, four)) in
      let size : readable_bytes b₁ ≡ 4 + n + 4 =
        omega (arith, Shape-readable s₁, length-append xs sum, four, len) in
      let (b₂, e₂, s₂) =
        prepend-Shape (to_network 4 (8 + n)) s₁
          (omega (arith, front, front₁, length-to_network 4 (8 + n))) in
      (
        b₂,
        seal-some b b₁ b₂ xs n (Shape-readable s)
            (bytes_at-Shape (length xs) s (omega arith)
              ∙ ap some (take_all (length xs) xs (omega arith)))
            e₁ size small e₂,
        s₂,
      )

  -- `send` fails no assert and gives the connection the frame of the message's bytes, if they are less
  -- than 2^30.
  pub send_lem :
      (m : libs.RpcMessage)
      → length (libs.serialize m) < 2 ^ 30
      → (b : Buffer) × (send libs m ≡ some b) × Holds b (frame libs (libs.serialize m))
  unfolding send has_written new
  send_lem m small =
      let bytes : List ℕ = libs.serialize m in
      let (b₁, e₁, s₁, size₁, front₁) = append-Shape_front (codes "RPC0") new-Shape (omega arith) in
      let (b₂, e₂, s₂, room₂, size₂, front₂) =
        ensure_writable_bytes-MakesRoom (length bytes + 4) s₁ (omega (arith, size₁, small)) in
      let fits : b₂.writer_index + length bytes ≤ length b₂.buffer =
        omega (arith, s₂.writer, Shape-length s₂, room₂) in
      let s₃ =
        write-Shape bytes (add_size b₂.writer_index (length bytes)) s₂ (omega (arith, room₂))
          (omega (arith, s₂.small, fits)) in
      let (b₄, e₄, s₄) =
        seal-Shape (length bytes) s₃ (omega arith) small
          (omega (arith, size₁, size₂, small, length-splice b₂.buffer b₂.writer_index bytes fits))
          (omega (arith, front₁, front₂)) in
      (b₄, rw (e₁, e₂, copy_to-some b₂.buffer b₂.writer_index bytes fits) e₄, Shape-Holds s₄)

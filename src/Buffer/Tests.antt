-- ===== src/Buffer/Tests.antt =====
-- Runs of the buffer, and its theorems at concrete buffers.
use muduo_pro.Common.{◌≡◌, refl, some, List, [], ◌∷◌, ◌++◌, arith, codes, replicate}
use muduo_pro.Buffer.{
  Buffer, append, got, read_fd, make_space, ensure_writable_bytes, copy_to, bytes_at, has_written,
}
use muduo_pro.Buffer.Shape.{Holds}
use muduo_pro.Buffer.Content.{read_fd_lem}
use muduo_pro.Buffer.Numbers.{append_three, read_three, read_three-append_three}
use muduo_pro.Buffer.Queue.{Call, put, get, run, run_queue, run_refines}

-- "ABC" behind eight prependable bytes, with one byte to write to.
abbrev tiny : Buffer
tiny = record {
  buffer = 0 ∷ 0 ∷ 0 ∷ 0 ∷ 0 ∷ 0 ∷ 0 ∷ 0 ∷ 65 ∷ 66 ∷ 67 ∷ 0 ∷ [];
  reader_index = 8;
  writer_index = 11;
}

tiny-Holds : Holds tiny (codes "ABC")
tiny-Holds = (omega arith, refl)

-- The same content further back: room is found by moving it.
abbrev loose : Buffer
loose = record {
  buffer = replicate 20 0 ++ (65 ∷ 66 ∷ 67 ∷ []);
  reader_index = 20;
  writer_index = 23;
}

append_moves :
    append loose (codes "DE")
    ≡ some (record {
      buffer = replicate 8 0 ++ (codes "ABCDE" ++ (replicate 7 0 ++ codes "ABC"));
      reader_index = 8;
      writer_index = 13;
    })
unfolding append ensure_writable_bytes make_space copy_to bytes_at has_written
append_moves = refl

abbrev calls : List Call
calls = put (codes "DEF") ∷ get 4 ∷ put (codes "G") ∷ get 2 ∷ get 9 ∷ []

run_queue_calls :
    run_queue (codes "ABC") (put (codes "DEF") ∷ get 4 ∷ get 1 ∷ [])
    ≡ some (codes "ABCD" ∷ codes "E" ∷ [])
unfolding run_queue
run_queue_calls = refl

run_refines_example : run tiny calls ≡ run_queue (codes "ABC") calls
run_refines_example = run_refines calls tiny-Holds (omega arith)

-- One byte fits the vector, two come through the array on the stack.
read_fd_lem_example :
    (b' : Buffer) × (read_fd tiny (got (codes "DEF")) ≡ some (b', got (codes "DEF")))
    × Holds b' (codes "ABCDEF")
read_fd_lem_example = read_fd_lem (got (codes "DEF")) tiny-Holds (omega arith) (omega arith)

abbrev drained : Buffer
drained = record tiny { reader_index = 8; writer_index = 8 }

read_three-append_three_example :
    (b₁ b₂ : Buffer) × (append_three drained 65537 258 7 ≡ some b₁)
    × (read_three b₁ ≡ some (65537, 258, 7, b₂))
    × Holds b₂ []
read_three-append_three_example =
    read_three-append_three 65537 258 7 (omega arith, refl) (omega arith) (omega arith)
      (omega arith) (omega arith)

abbrev line : Buffer
line = record {
  buffer = replicate 8 0 ++ (codes "GET" ++ (13 ∷ 10 ∷ []));
  reader_index = 8;
  writer_index = 13;
}

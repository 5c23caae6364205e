-- ===== src/Rpc/Frames.antt =====
-- The frame of a message, as the codec's format has it, and what `parse` makes of it.
use muduo_pro.Common.{
  ℕ, ◌+◌, ◌-◌, ◌*◌, ◌^◌, ◌%◌, ◌<◌, ◌≡◌, refl, sym, ap, ◌∙◌, some, List, [], ◌++◌, append-nil, arith,
  take, length, length-append, take-append, drop-append, codes, bytes_eq_iff, ==_refl, le→leb,
}
use muduo_pro.Buffer.Numbers.{
  to_network, from_network, length-to_network, from_network-to_network32,
}
use muduo_pro.Rpc.{Libraries, as_int32, parsed, parse}

module _ (libs : Libraries) where
  abbrev pub check_sum : List ℕ → ℕ
  check_sum bytes = libs.adler32 (codes "RPC0" ++ bytes) % 2 ^ 32

  -- What the length counts.
  abbrev pub body : List ℕ → List ℕ
  body bytes = (codes "RPC0" ++ bytes) ++ to_network 4 (check_sum bytes)

  abbrev pub frame : List ℕ → List ℕ
  frame bytes = to_network 4 (8 + length bytes) ++ body bytes

  pub length-body : (bytes : List ℕ) → length (body bytes) ≡ 8 + length bytes
  length-body bytes = omega (
    arith,
    length-append (codes "RPC0" ++ bytes) (to_network 4 (check_sum bytes)),
    length-to_network 4 (check_sum bytes),
  )

  as_int32-to_network : (x : ℕ) → x < 2 ^ 32 → as_int32 (to_network 4 x) ≡ some x
  unfolding as_int32
  as_int32-to_network x small =
      rw (le→leb 4 (length (to_network 4 x)) (omega (arith, length-to_network 4 x))) (
        ap (λ ys. some (from_network 0 ys))
          (ap (take 4) (sym (append-nil (to_network 4 x)))
            ∙ take-append 4 (to_network 4 x) [] (omega (arith, length-to_network 4 x)))
        ∙ ap some (from_network-to_network32 x small))

  -- `parse` accepts the body of a frame, and gives what protobuf makes of the bytes in it.
  pub parse-body :
      (bytes : List ℕ)
      → parse libs (body bytes) (8 + length bytes)
        ≡ some (parsed libs (libs.parse_from_array bytes))
  unfolding parse
  parse-body bytes =
      rw
        (
          drop-append (8 + length bytes - 4) (codes "RPC0" ++ bytes)
              (to_network 4 (check_sum bytes)) (omega arith),
          as_int32-to_network (check_sum bytes) (omega arith),
          take-append (8 + length bytes - 4) (codes "RPC0" ++ bytes)
              (to_network 4 (check_sum bytes)) (omega arith),
          ==_refl (check_sum bytes),
          (bytes_eq_iff (codes "RPC0") (codes "RPC0")).1 refl,
          take-append (8 + length bytes - 2 * 4) bytes (to_network 4 (check_sum bytes))
              (omega arith),
        )
        refl

-- ===== src/Common/Strings.antt =====
-- Byte strings, and `std::map` from strings to strings as a list in the order of the keys.
use Prim.Native.Char.{code}
use Prim.Native.String.{String}
use Prim.Native.Nat.{ℕ, compare, Ordering}
use mathlib.Core.Path.{◌≡◌, refl}
use mathlib.Core.Logic.{◌↔◌}
use mathlib.Core.Bool.{Bool, true, false}
use mathlib.Core.List.{List, [], ◌∷◌}
use mathlib.Core.Option.{Option, none, some}
use native.Mathlib.Omega.{arith}
use muduo_pro.Common.Tests.{if◌then◌else◌}

-- The bytes of an ASCII text.
abbrev pub codes : String → List ℕ
codes String.[] = []
codes (String.◌∷◌ c s) = code c ∷ codes s

-- `char_traits::compare`, byte by byte.
unfoldable pub compare_bytes : List ℕ → List ℕ → Ordering
compare_bytes [] [] = Ordering.eq
compare_bytes [] (d ∷ ds) = Ordering.lt
compare_bytes (c ∷ cs) [] = Ordering.gt
compare_bytes (c ∷ cs) (d ∷ ds) = elim (compare c d) [
  | Ordering.lt ↦ Ordering.lt
  | Ordering.eq ↦ compare_bytes cs ds
  | Ordering.gt ↦ Ordering.gt
]

unfoldable pub bytes_eq : List ℕ → List ℕ → Bool
bytes_eq a b = elim (compare_bytes a b) [ Ordering.eq ↦ true | _ ↦ false ]

pub compare_bytes_refl : (a : List ℕ) → compare_bytes a a ≡ Ordering.eq
unfolding compare_bytes
compare_bytes_refl [] = refl
compare_bytes_refl (c ∷ cs) = ground (arith, compare_bytes_refl cs)

pub eq_of_compare_bytes : (a b : List ℕ) → compare_bytes a b ≡ Ordering.eq → a ≡ b
unfolding compare_bytes
eq_of_compare_bytes [] [] e = refl
eq_of_compare_bytes [] (d ∷ ds) e = cc
eq_of_compare_bytes (c ∷ cs) [] e = cc
eq_of_compare_bytes (c ∷ cs) (d ∷ ds) e = ground (arith, eq_of_compare_bytes cs ds)

pub bytes_eq_iff : (a b : List ℕ) → (bytes_eq a b ≡ true) ↔ (a ≡ b)
unfolding bytes_eq
bytes_eq_iff a b =
    (λ e. eq_of_compare_bytes a b (ground arith), λ e. rw e (rw (compare_bytes_refl b, bytes_eq)))

abbrev pub StringMap : Type 0
StringMap = List (List ℕ × List ℕ)

-- `m[k] = v`.
unfoldable pub assign : List ℕ → List ℕ → StringMap → StringMap
assign k v [] = (k, v) ∷ []
assign k v ((j, w) ∷ m) = elim (compare_bytes k j) [
  | Ordering.lt ↦ (k, v) ∷ (j, w) ∷ m
  | Ordering.eq ↦ (j, v) ∷ m
  | Ordering.gt ↦ (j, w) ∷ assign k v m
]

unfoldable pub find : List ℕ → StringMap → Option (List ℕ)
find k [] = none
find k ((j, w) ∷ m) = if bytes_eq k j then some w else find k m

pub find-assign :
    (k j v : List ℕ) (m : StringMap)
    → find j (assign k v m) ≡ (if bytes_eq j k then some v else find j m)
unfolding find assign
find-assign k j v [] = refl
find-assign k j v ((i, w) ∷ m) = ground (
  arith,
  find-assign k j v m,
  eq_of_compare_bytes k i,
  compare_bytes_refl k,
  bytes_eq_iff j k,
  bytes_eq_iff j i,
)

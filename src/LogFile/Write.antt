-- ===== src/LogFile/Write.antt =====
-- File::append, on any answers of the stream.
use muduo_pro.Common.{
  ℕ, zero, suc, ◌+◌, ◌<◌, ◌≡◌, refl, ap, ◌∙◌, ◌⊎◌, inl, inr, false, some, List, [], ◌∷◌, ◌++◌, ◌==◌,
  length, take, drop, min, append_assoc, arith, Bool-cases, length-drop, take-append-drop,
}
use muduo_pro.LogFile.{File, write_rest, file_append}

-- The calls of fwrite_unlocked after the first all take something.
abbrev pub KeepsTaking : (ℕ → ℕ) → Type 0
KeepsTaking answer = (k : ℕ) → 0 < answer (suc k)

write_rest_all :
    (answer : ℕ → ℕ)
    → KeepsTaking answer
    → (rounds k : ℕ) (rest : List ℕ) → length rest < rounds
    → write_rest answer rounds (suc k) rest ≡ some rest
unfolding write_rest
write_rest_all answer keeps zero k rest lt = absurd (omega (arith, lt))
write_rest_all answer keeps (suc rounds) k [] lt = refl
write_rest_all answer keeps (suc rounds) k (b ∷ rest) lt =
    let x : ℕ = min (answer (suc k)) (length (b ∷ rest)) in
    let some_taken : (min (answer (suc k)) (length (b ∷ rest)) == 0) ≡ false =
      ground (arith, keeps k) in
    let shorter : length (drop (min (answer (suc k)) (length (b ∷ rest))) (b ∷ rest)) < rounds =
      omega
        (arith, lt, keeps k, length-drop (min (answer (suc k)) (length (b ∷ rest))) (b ∷ rest)) in
    rw
      (
        some_taken,
        write_rest_all answer keeps rounds (suc k)
            (drop (min (answer (suc k)) (length (b ∷ rest))) (b ∷ rest)) shorter,
      )
      (ap some (take-append-drop (min (answer (suc k)) (length (b ∷ rest))) (b ∷ rest)))

-- Nothing is lost, unless a call of fwrite_unlocked after the first took nothing.
abbrev pub AllBut : (ℕ → ℕ) → List ℕ → Type 0
AllBut answer lost = (lost ≡ []) ⊎ ((k : ℕ) × (0 < k) × (answer k ≡ 0))

write_rest_returns :
    (answer : ℕ → ℕ) (rounds k : ℕ) (rest : List ℕ)
    → length rest < rounds
    → 0 < k
    → (out lost : List ℕ) × (write_rest answer rounds k rest ≡ some out)
      × (out ++ lost ≡ rest)
      × AllBut answer lost
unfolding write_rest
write_rest_returns answer zero k rest lt later = absurd (omega (arith, lt))
write_rest_returns answer (suc rounds) k [] lt later = ([], [], refl, refl, inl refl)
write_rest_returns answer (suc rounds) k (b ∷ rest) lt later =
    elim (Bool-cases (min (answer k) (length (b ∷ rest)) == 0)) [
      | inl stuck ↦ ([], b ∷ rest, rw stuck refl, refl, inr (k, later, ground (arith, stuck)))
      | inr taken ↦
          let shorter : length (drop (min (answer k) (length (b ∷ rest))) (b ∷ rest)) < rounds =
            ground
              (arith, lt, taken, length-drop (min (answer k) (length (b ∷ rest))) (b ∷ rest)) in
          let (out, lost, e, whole, all) =
            write_rest_returns answer rounds (suc k)
              (drop (min (answer k) (length (b ∷ rest))) (b ∷ rest)) shorter (omega arith) in
          (
            take (min (answer k) (length (b ∷ rest))) (b ∷ rest) ++ out,
            lost,
            rw (taken, e) refl,
            append_assoc (take (min (answer k) (length (b ∷ rest))) (b ∷ rest)) out lost
                ∙ ap (◌++◌ (take (min (answer k) (length (b ∷ rest))) (b ∷ rest))) whole
                ∙ take-append-drop (min (answer k) (length (b ∷ rest))) (b ∷ rest),
            all,
          )
    ]

-- File::append always returns: the stream has then taken a first part of the line, all of it unless
-- a call of fwrite_unlocked after the first took nothing, and writtenBytes_ has grown by the whole line.
pub file_append_returns :
    (answer : ℕ → ℕ) (line : List ℕ) (f : File)
    → (out lost : List ℕ) × (out ++ lost ≡ line)
      × (file_append answer line f
          ≡ some (record f {
            written = f.written ++ out;
            written_bytes = f.written_bytes + length line;
          }))
      × AllBut answer lost
unfolding file_append
file_append_returns answer line f =
    let n : ℕ = min (answer 0) (length line) in
    let shorter : length (drop (min (answer 0) (length line)) line) < suc (length line) =
      omega (arith, length-drop (min (answer 0) (length line)) line) in
    let (out, lost, e, whole, all) =
      write_rest_returns answer (suc (length line)) 1 (drop (min (answer 0) (length line)) line)
        shorter (omega arith) in
    (
      take (min (answer 0) (length line)) line ++ out,
      lost,
      append_assoc (take (min (answer 0) (length line)) line) out lost
          ∙ ap (◌++◌ (take (min (answer 0) (length line)) line)) whole
          ∙ take-append-drop (min (answer 0) (length line)) line,
      rw e refl,
      all,
    )

pub file_append_all :
    (answer : ℕ → ℕ) (line : List ℕ) (f : File)
    → KeepsTaking answer
    → file_append answer line f
      ≡ some
          (record f { written = f.written ++ line; written_bytes = f.written_bytes + length line })
unfolding file_append
file_append_all answer line f keeps =
    let shorter : length (drop (min (answer 0) (length line)) line) < suc (length line) =
      omega (arith, length-drop (min (answer 0) (length line)) line) in
    rw
      (write_rest_all answer keeps (suc (length line)) 0 (drop (min (answer 0) (length line)) line)
        shorter)
      (ap
        (λ out.
          some (record f {
            written = f.written ++ out;
            written_bytes = f.written_bytes + length line;
          }))
        (take-append-drop (min (answer 0) (length line)) line))

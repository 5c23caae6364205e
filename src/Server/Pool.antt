-- ===== src/Server/Pool.antt =====
-- The loops take turns.
use muduo_pro.Common.{
  ℕ, zero, suc, ◌<◌, ◌≡◌, refl, sym, ap, ◌∙◌, Option, some, List, [], ◌∷◌, arith, lt→ltb, lt→leb,
  le→leb, ◌++◌, append_assoc, length-append, ◌>>=◌, length, get_elem?,
}
use muduo_pro.Server.{EventLoopThreadPool, next_index, get_next_loop}

pub get_elem?-some {ℓ} :
    {A : Type ℓ} (xs : List A) (i : ℕ) → i < length xs → (x : A) × (get_elem? xs i ≡ some x)
get_elem?-some [] i h = absurd (omega (arith, h))
get_elem?-some (x ∷ xs) zero h = (x, refl)
get_elem?-some (x ∷ xs) (suc i) h = get_elem?-some xs i (omega (arith, h))

-- The loops that so many calls of getNextLoop give.
abbrev pub next_loops : ℕ → EventLoopThreadPool → Option (List ℕ × EventLoopThreadPool)
next_loops zero p = some ([], p)
next_loops (suc n) p = do
  (loop, p') ← get_next_loop p
  (loops, p'') ← next_loops n p'
  some (loop ∷ loops, p'')

get_elem?-append {ℓ} :
    {A : Type ℓ} (xs : List A) (y : A) (ys : List A)
    → get_elem? (xs ++ (y ∷ ys)) (length xs) ≡ some y
get_elem?-append [] y ys = refl
get_elem?-append (x ∷ xs) y ys = get_elem?-append xs y ys

get_next_loop-some :
    (p : EventLoopThreadPool) (xs : List ℕ) (y : ℕ) (ys : List ℕ)
    → p.loops ≡ xs ++ (y ∷ ys)
    → p.next ≡ length xs
    → get_next_loop p
      ≡ some (y, record p { next = next_index (length xs) (length (xs ++ (y ∷ ys))) })
unfolding get_next_loop
get_next_loop-some p xs y ys e n =
    rw
      (
        e,
        n,
        lt→ltb 0 (length (xs ++ (y ∷ ys))) (omega (arith, length-append xs (y ∷ ys))),
        get_elem?-append xs y ys,
      )
      refl

turns :
    (p : EventLoopThreadPool) (xs : List ℕ) (y : ℕ) (ys : List ℕ)
    → p.loops ≡ xs ++ (y ∷ ys)
    → p.next ≡ length xs
    → next_loops (suc (length ys)) p ≡ some (y ∷ ys, record p { next = 0 })
turns p xs y [] e n =
    rw
      (
        get_next_loop-some p xs y [] e n,
        le→leb (length (xs ++ (y ∷ []))) (suc (length xs))
            (omega (arith, length-append xs (y ∷ []))),
      )
      refl
turns p xs y (z ∷ zs) e n =
    rw
      (
        get_next_loop-some p xs y (z ∷ zs) e n,
        lt→leb (length (xs ++ (y ∷ (z ∷ zs)))) (suc (length xs))
            (omega (arith, length-append xs (y ∷ (z ∷ zs)))),
        turns (record p { next = suc (length xs) }) (xs ++ (y ∷ [])) z zs
            (e ∙ sym (append_assoc xs (y ∷ []) (z ∷ zs)))
            (omega (arith, length-append xs (y ∷ []))),
      )
      refl

-- From its first loop on, as many calls of getNextLoop as the pool has loops give each of them once,
-- in order, and the pool is where it was. A pool without loops gives the base loop.
pub next_loops_lem :
    (p : EventLoopThreadPool)
    → p.next ≡ 0
    → (next_loops (length p.loops) p ≡ some (p.loops, p))
      × (p.loops ≡ [] → get_next_loop p ≡ some (p.base_loop, p))
unfolding get_next_loop
next_loops_lem p first = (by_loops p.loops refl, λ e. rw (e, get_next_loop) refl)
  where
    by_loops : (ls : List ℕ) → p.loops ≡ ls → next_loops (length ls) p ≡ some (ls, p)
    by_loops [] e = refl
    by_loops (y ∷ ys) e =
        turns p [] y ys e first ∙ ap (λ n. some (y ∷ ys, record p { next = n })) (sym first)

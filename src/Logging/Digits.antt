-- ===== src/Logging/Digits.antt =====
-- What `convert` and `convertHex` print.
use muduo_pro.Common.{
  ℤ, pos, negsuc, neg, ℕ, zero, suc, ◌+◌, ◌*◌, ◌/◌, ◌%◌, ◌^◌, ◌<◌, ◌≤◌, ◌≡◌, refl, ap, ◌∙◌, inl,
  inr, Bool, true, false, some, List, [], ◌∷◌, ◌++◌, append-nil, arith, ltb, ltb→lt, ltb_false→le,
  ◌==◌, Bool-cases, length, decimal, decimal_onto, get_elem?,
}
use muduo_pro.Logging.{
  quotient, remainder, is_zero, digit_at, reverse_onto, convert_loop, convert, digits_hex,
  convert_hex_loop, convert_hex,
}

abbrev pub pow10 : ℕ → ℕ
pow10 zero = 1
pow10 (suc k) = 10 * pow10 k

digit_at-pos : (d : ℕ) → d < 10 → digit_at (pos d) ≡ some (48 + d)
digit_at-pos zero h = refl
digit_at-pos (suc zero) h = refl
digit_at-pos (suc (suc zero)) h = refl
digit_at-pos (suc (suc (suc zero))) h = refl
digit_at-pos (suc (suc (suc (suc zero)))) h = refl
digit_at-pos (suc (suc (suc (suc (suc zero))))) h = refl
digit_at-pos (suc (suc (suc (suc (suc (suc zero)))))) h = refl
digit_at-pos (suc (suc (suc (suc (suc (suc (suc zero))))))) h = refl
digit_at-pos (suc (suc (suc (suc (suc (suc (suc (suc zero)))))))) h = refl
digit_at-pos (suc (suc (suc (suc (suc (suc (suc (suc (suc zero))))))))) h = refl
digit_at-pos (suc (suc (suc (suc (suc (suc (suc (suc (suc (suc d)))))))))) h = absurd (omega arith)

digit_at-neg : (d : ℕ) → d < 10 → digit_at (neg d) ≡ some (48 + d)
digit_at-neg zero h = refl
digit_at-neg (suc zero) h = refl
digit_at-neg (suc (suc zero)) h = refl
digit_at-neg (suc (suc (suc zero))) h = refl
digit_at-neg (suc (suc (suc (suc zero)))) h = refl
digit_at-neg (suc (suc (suc (suc (suc zero))))) h = refl
digit_at-neg (suc (suc (suc (suc (suc (suc zero)))))) h = refl
digit_at-neg (suc (suc (suc (suc (suc (suc (suc zero))))))) h = refl
digit_at-neg (suc (suc (suc (suc (suc (suc (suc (suc zero)))))))) h = refl
digit_at-neg (suc (suc (suc (suc (suc (suc (suc (suc (suc zero))))))))) h = refl
digit_at-neg (suc (suc (suc (suc (suc (suc (suc (suc (suc (suc d)))))))))) h = absurd (omega arith)

-- A number of either sign.
abbrev signed : Bool → ℕ → ℤ
signed true n = neg n
signed false n = pos n

quotient-signed : (s : Bool) (n : ℕ) → quotient (signed s n) ≡ signed s (n / 10)
quotient-signed false n = refl
quotient-signed true zero = refl
quotient-signed true (suc n) = refl

digit_at-remainder : (s : Bool) (n : ℕ) → digit_at (remainder (signed s n)) ≡ some (48 + n % 10)
digit_at-remainder false n = digit_at-pos (n % 10) (omega arith)
digit_at-remainder true zero = refl
digit_at-remainder true (suc n) = digit_at-neg (suc n % 10) (omega arith)

is_zero-signed : (s : Bool) (n : ℕ) → is_zero (signed s n) ≡ (n == 0)
is_zero-signed false zero = refl
is_zero-signed false (suc n) = ground arith
is_zero-signed true zero = refl
is_zero-signed true (suc n) = ground arith

reverse_onto-append :
    (xs ys acc : List ℕ) → reverse_onto (xs ++ ys) acc ≡ reverse_onto ys (reverse_onto xs acc)
reverse_onto-append [] ys acc = refl
reverse_onto-append (x ∷ xs) ys acc = reverse_onto-append xs ys (x ∷ acc)

length-reverse_onto : (xs acc : List ℕ) → length (reverse_onto xs acc) ≡ length xs + length acc
length-reverse_onto [] acc = omega arith
length-reverse_onto (x ∷ xs) acc = omega (arith, length-reverse_onto xs (x ∷ acc))

convert_loop-decimal :
    (rounds fuel n : ℕ) (s : Bool) (acc : List ℕ)
    → n < pow10 rounds
    → n < fuel
    → 0 < rounds
    → (ds : List ℕ) × (convert_loop rounds (signed s n) ≡ some ds)
      × (reverse_onto ds acc ≡ decimal_onto fuel n acc)
      × (length ds ≤ rounds)
unfolding convert_loop decimal_onto
convert_loop-decimal zero fuel n s acc small enough some_round = absurd (omega arith)
convert_loop-decimal (suc rounds) zero n s acc small enough some_round = absurd (omega arith)
convert_loop-decimal (suc rounds) (suc fuel) n s acc small enough some_round =
    elim (Bool-cases (ltb n 10)) [
      | inl last ↦ (
        (48 + n % 10) ∷ [],
        rw
            (
              digit_at-remainder s n,
              quotient-signed s n,
              is_zero-signed s (n / 10),
              ends n (ltb→lt _ _ last),
            )
            refl,
        rw last (ap (λ d. d ∷ acc) (omega (arith, ltb→lt n 10 last))),
        omega arith,
      )
      | inr more ↦
          let (ds, e, text, len) =
            convert_loop-decimal rounds fuel (n / 10) s ((48 + n % 10) ∷ acc) (omega (arith, small))
              (omega (arith, ltb_false→le _ _ more))
              (positive rounds n small (ltb_false→le n 10 more)) in
          (
            (48 + n % 10) ∷ ds,
            rw
                (
                  digit_at-remainder s n,
                  quotient-signed s n,
                  is_zero-signed s (n / 10),
                  goes_on n (ltb_false→le _ _ more),
                  e,
                )
                refl,
            rw more text,
            omega (arith, len),
          )
    ]
  where
    ends : (n : ℕ) → n < 10 → (n / 10 == 0) ≡ true
    ends n h = ground arith

    goes_on : (n : ℕ) → 10 ≤ n → (n / 10 == 0) ≡ false
    goes_on n h = ground arith

    positive : (rounds n : ℕ) → n < pow10 (suc rounds) → 10 ≤ n → 0 < rounds
    positive zero n h k = absurd (omega arith)
    positive (suc rounds) n h k = omega arith

abbrev pub magnitude : ℤ → ℕ
magnitude (pos n) = n
magnitude (negsuc n) = suc n

abbrev pub sign : ℤ → List ℕ
sign (pos n) = []
sign (negsuc n) = b'-' ∷ []

-- `convert` ends, and prints any integer of 64 bits, of either sign and the least one included, as a
-- sign and the decimal digits of its magnitude; with the NUL this fits into 32 bytes.
pub convert_lem :
    (v : ℤ)
    → magnitude v < 2 ^ 64
    → (convert v ≡ some (sign v ++ decimal (magnitude v)))
      × (length (sign v ++ decimal (magnitude v)) < 32)
unfolding convert decimal
convert_lem (pos n) small =
    let (ds, e, text, len) =
      convert_loop-decimal 20 (n + 1) n false [] (omega (arith, small)) (omega arith)
        (omega arith) in
    (
      rw e (ap some (ap (λ xs. reverse_onto xs []) (append-nil ds) ∙ text)),
      omega (arith, len, ap length text, length-reverse_onto ds []),
    )
convert_lem (negsuc n) small =
    let (ds, e, text, len) =
      convert_loop-decimal 20 (suc n + 1) (suc n) true [] (omega (arith, small)) (omega arith)
        (omega arith) in
    (
      rw e (ap some (reverse_onto-append ds (b'-' ∷ []) [] ∙ ap (λ xs. b'-' ∷ xs) text)),
      omega (arith, len, ap length text, length-reverse_onto ds []),
    )

-- The digits of `convertHex`.
hex_digit : (d : ℕ) → d < 16 → (c : ℕ) × (get_elem? digits_hex d ≡ some c)
hex_digit zero h = (_, refl)
hex_digit (suc zero) h = (_, refl)
hex_digit (suc (suc zero)) h = (_, refl)
hex_digit (suc (suc (suc zero))) h = (_, refl)
hex_digit (suc (suc (suc (suc zero)))) h = (_, refl)
hex_digit (suc (suc (suc (suc (suc zero))))) h = (_, refl)
hex_digit (suc (suc (suc (suc (suc (suc zero)))))) h = (_, refl)
hex_digit (suc (suc (suc (suc (suc (suc (suc zero))))))) h = (_, refl)
hex_digit (suc (suc (suc (suc (suc (suc (suc (suc zero)))))))) h = (_, refl)
hex_digit (suc (suc (suc (suc (suc (suc (suc (suc (suc zero))))))))) h = (_, refl)
hex_digit (suc (suc (suc (suc (suc (suc (suc (suc (suc (suc zero)))))))))) h = (_, refl)
hex_digit (suc (suc (suc (suc (suc (suc (suc (suc (suc (suc (suc zero))))))))))) h = (_, refl)
hex_digit (suc (suc (suc (suc (suc (suc (suc (suc (suc (suc (suc (suc zero)))))))))))) h = (_, refl)
hex_digit (suc (suc (suc (suc (suc (suc (suc (suc (suc (suc (suc (suc (suc zero))))))))))))) h =
    (_, refl)
hex_digit (suc (suc (suc (suc (suc (suc (suc (suc (suc (suc (suc (suc (suc (suc zero))))))))))))))
      h =
    (_, refl)
hex_digit
      (suc (suc (suc (suc (suc (suc (suc (suc (suc (suc (suc (suc (suc (suc (suc zero)))))))))))))))
      h =
    (_, refl)
hex_digit
      (suc
        (suc (suc (suc (suc (suc (suc (suc (suc (suc (suc (suc (suc (suc (suc (suc d))))))))))))))))
      h =
    absurd (omega arith)

abbrev pow16 : ℕ → ℕ
pow16 zero = 1
pow16 (suc k) = 16 * pow16 k

convert_hex_loop-some :
    (rounds n : ℕ)
    → n < pow16 rounds
    → 0 < rounds
    → (ds : List ℕ) × (convert_hex_loop rounds n ≡ some ds) × (length ds ≤ rounds)
unfolding convert_hex_loop
convert_hex_loop-some zero n small some_round = absurd (omega arith)
convert_hex_loop-some (suc rounds) n small some_round =
    let (c, d) = hex_digit (n % 16) (omega arith) in
    elim (Bool-cases (n / 16 == 0)) [
      | inl last ↦ (c ∷ [], rw (d, last) refl, omega arith)
      | inr more ↦
          let (ds, e, len) =
            convert_hex_loop-some rounds (n / 16) (omega (arith, small))
              (positive rounds n small more) in
          (c ∷ ds, rw (d, more, e) refl, omega (arith, len))
    ]
  where
    positive : (rounds n : ℕ) → n < pow16 (suc rounds) → (n / 16 == 0) ≡ false → 0 < rounds
    positive zero n h k = ground arith
    positive (suc rounds) n h k = omega arith

-- An address has at most 16 digits.
pub convert_hex_lem :
    (p : ℕ) → p < 2 ^ 64 → (ds : List ℕ) × (convert_hex p ≡ some ds) × (length ds ≤ 16)
unfolding convert_hex
convert_hex_lem p small =
    let (ds, e, len) = convert_hex_loop-some 16 p (omega (arith, small)) (omega arith) in
    (reverse_onto ds [], rw e refl, omega (arith, len, length-reverse_onto ds []))

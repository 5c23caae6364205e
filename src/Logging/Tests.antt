-- ===== src/Logging/Tests.antt =====
-- The log line at concrete inputs.
use muduo_pro.Common.{
  negsuc, ℕ, ◌≡◌, refl, true, Option, some, List, [], ◌∷◌, ◌++◌, arith, ◌^◌, ◌≤◌, ◌<◌, ◌+◌,
  if◌then◌else◌, length, codes, decimal, replicate, ◌-◌, ◌>>=◌,
}
use muduo_pro.Logging.{
  FixedBuffer, avail, contents, Item, of_bool, of_text, of_integer, put, put_all, convert, append,
  write_at_cur, format_integer, convert_loop,
}
use muduo_pro.Logging.Digits.{magnitude, sign, convert_lem}
use muduo_pro.Logging.Format.{IsValid, text_of, has_room, texts, put_lem, put_all_lem}

-- An array of 40 bytes, 4 of them in use.
abbrev line : FixedBuffer
line = record { bytes = codes "abcd" ++ replicate 36 0; cur = 4 }

abbrev line_items : List Item
line_items = of_bool true ∷ of_integer (negsuc 41) ∷ of_text (codes " xy") ∷ []

line_contents : Option (List ℕ)
unfolding put_all put append write_at_cur format_integer convert convert_loop
line_contents = (do b ← put_all line_items line; some (contents b))

line_contents_run : line_contents ≡ some (codes "abcd1-42 xy")
unfolding line_contents put_all put append write_at_cur format_integer convert convert_loop
line_contents_run = refl

convert_lem_example :
    (convert (negsuc (2 ^ 63 - 1))
      ≡ some (sign (negsuc (2 ^ 63 - 1)) ++ decimal (magnitude (negsuc (2 ^ 63 - 1)))))
    × (length (sign (negsuc (2 ^ 63 - 1)) ++ decimal (magnitude (negsuc (2 ^ 63 - 1)))) < 32)
convert_lem_example = convert_lem (negsuc (2 ^ 63 - 1)) (omega arith)

put_lem_example :
    (b' : FixedBuffer) × (put (of_integer (negsuc 41)) line ≡ some b')
    × IsValid b'
    × (length b'.bytes ≡ length line.bytes)
    × (contents b'
        ≡ contents line
          ++ (if has_room (of_integer (negsuc 41)) line
              then text_of (of_integer (negsuc 41))
              else []))
put_lem_example = put_lem (of_integer (negsuc 41)) line (omega arith) (omega arith)

put_all_lem_example :
    (b' : FixedBuffer) × (rest : List ℕ) × (put_all line_items line ≡ some b')
    × IsValid b'
    × (contents b' ≡ contents line ++ rest)
    × (length (texts line_items) + 32 ≤ avail line → rest ≡ texts line_items)
put_all_lem_example =
    put_all_lem line_items line (omega arith) (omega arith, (omega arith, (omega arith, tt)))

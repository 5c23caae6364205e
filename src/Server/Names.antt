-- ===== src/Server/Names.antt =====
-- The names of connections.
use muduo_pro.Common.{
  ℕ, ◌+◌, ◌≤◌, ◌≡◌, refl, sym, ap, ◌∙◌, List, ◌++◌, arith, length, length-append, drop, take_all,
  drop-append, codes, decimal, value_onto, value-decimal,
}
use muduo_pro.Server.{conn_suffix}

-- The suffix of a name fits its 32 bytes.
abbrev pub Fits : List ℕ → ℕ → Type 0
Fits hostport id = length hostport + length (decimal id) + 2 ≤ 31

append_cancel : (xs ys zs : List ℕ) → xs ++ ys ≡ xs ++ zs → ys ≡ zs
append_cancel xs ys zs e =
    sym (drop-append (length xs) xs ys refl)
    ∙ ap (drop (length xs)) e
    ∙ drop-append (length xs) xs zs refl

whole :
    (hostport : List ℕ) (id : ℕ)
    → Fits hostport id
    → conn_suffix hostport id ≡ codes ":" ++ (hostport ++ (codes "#" ++ decimal id))
whole hostport id fits =
    take_all 31 (codes ":" ++ (hostport ++ (codes "#" ++ decimal id)))
      (omega (arith, fits, length-append hostport (codes "#" ++ decimal id)))

-- Names that fit tell connections apart.
pub conn_name_injective :
    (name hostport : List ℕ) (i j : ℕ)
    → Fits hostport i
    → Fits hostport j
    → name ++ conn_suffix hostport i ≡ name ++ conn_suffix hostport j
    → i ≡ j
conn_name_injective name hostport i j fi fj e =
    let suffixes = append_cancel name (conn_suffix hostport i) (conn_suffix hostport j) e in
    let texts =
      append_cancel (codes ":") (hostport ++ (codes "#" ++ decimal i))
        (hostport ++ (codes "#" ++ decimal j))
        (sym (whole hostport i fi) ∙ suffixes ∙ whole hostport j fj) in
    let numbers =
      append_cancel (codes "#") (decimal i) (decimal j)
        (append_cancel hostport (codes "#" ++ decimal i) (codes "#" ++ decimal j) texts) in
    sym (value-decimal i) ∙ ap (value_onto 0) numbers ∙ value-decimal j

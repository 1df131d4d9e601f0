-- ===== src/Language/Signature/RoundTrip.antt =====
-- A type that is printed is read back (bootstrap/type.c: `type_print`, `type_parse`).
use guage.Prelude.{
  ℕ, zero, suc, ◌+◌, ◌≤◌, ◌<◌, ◌≡◌, refl, ap, ◌∙◌, false, none, some, List, [], ◌∷◌, arith, length,
}
use guage.Language.Signature.{
  TypeExpr, var, num, bool, nil, symbol, lambda, error, struct, node, graph, effect, unit, pair,
  list, func, union, pattern_type, Parse, ok, go_on, skip_whitespace, strip, right_angle, arrow,
  abs_word, close, parse_list, parse_primary, parse_tail, parse_type_expr, type_parse, onto,
  type_print,
}
use guage.Language.Signature.Functions.{type_is_function}
use guage.Language.Signature.Printed.{starts_list, IsReadable, rounds, print-Begins, print_no_list}

-- What may stand behind a type.
abbrev Stops : List ℕ → Type 0
Stops k = (strip arrow (skip_whitespace k) ≡ none) × (strip abs_word (skip_whitespace k) ≡ none)

abbrev ReadsPrimary : TypeExpr → Type 0
ReadsPrimary t =
    (n : ℕ) (k : List ℕ)
    → type_is_function t ≡ false
    → rounds t ≤ suc n
    → parse_primary (parse_type_expr n) (type_print t k) ≡ ok t k

abbrev Reads : TypeExpr → Type 0
Reads t =
    (n : ℕ) (k : List ℕ)
    → Stops k
    → rounds t ≤ n
    → parse_type_expr n (type_print t k) ≡ ok t (skip_whitespace k)

rounds_pos : (t : TypeExpr) → 0 < rounds t
rounds_pos (pair a b) = omega arith
rounds_pos (list a) = omega arith
rounds_pos (func a b) = omega arith
rounds_pos t = omega arith

Reads-of_primary : (t : TypeExpr) → type_is_function t ≡ false → ReadsPrimary t → Reads t
unfolding parse_type_expr parse_tail
Reads-of_primary t f p zero k s h = let x = rounds_pos t in absurd (omega arith)
Reads-of_primary t f p (suc n) k s h = rw (parse_type_expr, p n k f h, parse_tail, s.0, s.1) refl

read_pair :
    (a b : TypeExpr) → IsReadable a → IsReadable b → Reads a → Reads b → ReadsPrimary (pair a b)
unfolding parse_primary type_print
read_pair a b h g p q n k f r =
    let k2 = onto right_angle k in
    let k1 = b' ' ∷ type_print b k2 in
    let x = print-Begins a k1 h in
    let y = print-Begins b k2 g in
    let i : parse_type_expr n (type_print a k1) ≡ ok a (type_print b k2) =
      p n k1 (rw y.no_space y.no_arrow, rw y.no_space y.no_abs) (omega arith)
      ∙ ap (ok a) y.no_space in
    let j = q n k2 (refl, refl) (omega arith) in rw (x.no_space, i, y.no_space, j) refl

parse_list-elem :
    (again : List ℕ → Parse) (s : List ℕ)
    → strip (b'[' ∷ []) (skip_whitespace s) ≡ none
    → parse_list again s
      ≡ go_on (again (skip_whitespace s)) (λ elem rest. close again (b']' ∷ []) (list elem) rest)
parse_list-elem again s z = rw (parse_list, z) refl

read_list : (a : TypeExpr) → starts_list a ≡ false → IsReadable a → Reads a → ReadsPrimary (list a)
unfolding parse_primary type_print
read_list a e h p n k f r =
    let k1 = b']' ∷ k in
    let x = print-Begins a k1 h in
    let l = print_no_list a k1 h e in
    let i = p n k1 (refl, refl) (omega arith) in
    let z : strip (b'[' ∷ []) (skip_whitespace (type_print a k1)) ≡ none =
      ap (strip (b'[' ∷ [])) x.no_space ∙ l in
    parse_list-elem (parse_type_expr n) (type_print a k1) z ∙ rw (x.no_space, i) refl

read_func :
    (a b : TypeExpr)
    → type_is_function a ≡ false
    → IsReadable b
    → ReadsPrimary a
    → Reads b
    → Reads (func a b)
unfolding parse_type_expr parse_tail type_print
read_func a b f g p q zero k s h = absurd (omega arith)
read_func a b f g p q (suc n) k s h =
    let y = print-Begins b k g in
    let i = p n (onto (b' ' ∷ b'-' ∷ b'>' ∷ b' ' ∷ []) (type_print b k)) f (omega arith) in
    let j = q n k s (omega arith) in rw (parse_type_expr, i, parse_tail, y.no_space, j) refl

read_num : ReadsPrimary num
unfolding parse_primary type_print type_is_function
read_num n k f r = refl

read_bool : ReadsPrimary bool
unfolding parse_primary type_print type_is_function
read_bool n k f r = refl

read_nil : ReadsPrimary nil
unfolding parse_primary type_print type_is_function
read_nil n k f r = refl

read_symbol : ReadsPrimary symbol
unfolding parse_primary type_print type_is_function
read_symbol n k f r = refl

read_lambda : ReadsPrimary lambda
unfolding parse_primary type_print type_is_function
read_lambda n k f r = refl

read_error : ReadsPrimary error
unfolding parse_primary type_print type_is_function
read_error n k f r = refl

read_struct : ReadsPrimary struct
unfolding parse_primary type_print type_is_function
read_struct n k f r = refl

read_node : ReadsPrimary node
unfolding parse_primary type_print type_is_function
read_node n k f r = refl

read_graph : ReadsPrimary graph
unfolding parse_primary type_print type_is_function
read_graph n k f r = refl

read_effect : ReadsPrimary effect
unfolding parse_primary type_print type_is_function
read_effect n k f r = refl

read_unit : ReadsPrimary unit
unfolding parse_primary type_print type_is_function
read_unit n k f r = refl

reads : (t : TypeExpr) → IsReadable t → (type_is_function t ≡ false → ReadsPrimary t) × Reads t
unfolding parse_primary type_print type_is_function
reads (var c) h = absurd h
reads (union a b) h = absurd h
reads (pattern_type a b) h = absurd h
reads (pair a b) h =
    let p = read_pair a b h.0 h.1 (reads a h.0).1 (reads b h.1).1 in
    (λ f. p, Reads-of_primary (pair a b) refl p)
reads (list a) h =
    let p = read_list a h.0 h.1 (reads a h.1).1 in (λ f. p, Reads-of_primary (list a) refl p)
reads (func a b) h =
    (λ f. absurd cc, read_func a b h.0 h.1.1 ((reads a h.1.0).0 h.0) (reads b h.1.1).1)
reads num h = (λ f. read_num, Reads-of_primary num refl read_num)
reads bool h = (λ f. read_bool, Reads-of_primary bool refl read_bool)
reads nil h = (λ f. read_nil, Reads-of_primary nil refl read_nil)
reads symbol h = (λ f. read_symbol, Reads-of_primary symbol refl read_symbol)
reads lambda h = (λ f. read_lambda, Reads-of_primary lambda refl read_lambda)
reads error h = (λ f. read_error, Reads-of_primary error refl read_error)
reads struct h = (λ f. read_struct, Reads-of_primary struct refl read_struct)
reads node h = (λ f. read_node, Reads-of_primary node refl read_node)
reads graph h = (λ f. read_graph, Reads-of_primary graph refl read_graph)
reads effect h = (λ f. read_effect, Reads-of_primary effect refl read_effect)
reads unit h = (λ f. read_unit, Reads-of_primary unit refl read_unit)

length-print :
    (t : TypeExpr) (k : List ℕ) → IsReadable t → rounds t + length k ≤ length (type_print t k)
unfolding type_print
length-print (pair a b) k h =
    let k2 = onto right_angle k in
    let x = length-print a (b' ' ∷ type_print b k2) h.0 in
    let y = length-print b k2 h.1 in omega arith
length-print (list a) k h = let x = length-print a (b']' ∷ k) h.1 in omega arith
length-print (func a b) k h =
    let x = length-print a (onto (b' ' ∷ b'-' ∷ b'>' ∷ b' ' ∷ []) (type_print b k)) h.1.0 in
    let y = length-print b k h.1.1 in omega arith
length-print (union a b) k h = absurd h
length-print t k h = omega arith

-- A type with no variables, unions and patterns, with no function on the left of an arrow and no
-- list that is printed as "[[", is what type_parse returns for what type_print prints of it.
pub parse-print : (t : TypeExpr) → IsReadable t → type_parse (type_print t []) ≡ some t
unfolding type_parse
parse-print t h =
    let l = length-print t [] h in
    let e = (reads t h).1 (suc (length (type_print t []))) [] (refl, refl) (omega (arith, l)) in
    rw (type_parse, e) refl

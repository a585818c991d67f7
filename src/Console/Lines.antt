-- ===== src/Console/Lines.antt =====
-- console.rs: a line that is typed on an empty console, and the read that takes it.
use mathlib.Core.List.{append_assoc}
use web_os.Prelude.{
  ℕ, zero, suc, ◌+◌, ◌%◌, ◌^◌, ◌<◌, ◌≡◌, ◌∙◌, refl, ap, sym, Bool, true, false, List, [], ◌∷◌, ◌++◌,
  arith, get_or, drop, length, length-append, All, ◌==◌,
}
use web_os.Prelude.Ring.{cells}
use web_os.Errors.{Result, ok}
use web_os.Console.{Cons, ctrl, newline, input_buf_size}
use web_os.Console.Typing.{IsPlain, Typed, Submitted, type_all-Submitted}
use web_os.Console.Keys.{type_all}
use web_os.Console.Reads.{Run, ends, sleeps, read, read_from}

-- A read whose copies succeed.
abbrev pub copies : ℕ → ℕ → Result (Unit {0})
copies dst x = ok tt

abbrev pub taken : Run → Result ℕ × List ℕ
taken (ends res out c) = (res, out)
taken (sleeps n out c) = (ok 0, out)

-- The byte that is read next.
abbrev head : Cons → ℕ
head c = get_or c.buf (c.r % input_buf_size) 0

read_from-newline :
    (killed : Bool) (n dst got : ℕ) (out : List ℕ) (c : Cons)
    → (c.r == c.w) ≡ false
    → (head c == ctrl b'D') ≡ false
    → (head c == newline) ≡ true
    → read_from copies killed (suc n) dst got out c
      ≡ ends (ok (got + 1)) (out ++ head c ∷ []) (record c { r = c.r + 1 })
unfolding read_from
read_from-newline killed n dst got out c more line_goes_on last =
    rw (read_from, more, line_goes_on, last) refl

read_from_plain :
    (killed : Bool) (n dst got : ℕ) (out : List ℕ) (c : Cons)
    → (c.r == c.w) ≡ false
    → (head c == ctrl b'D') ≡ false
    → (head c == newline) ≡ false
    → read_from copies killed (suc n) dst got out c
      ≡ read_from copies killed n
          (dst + 1)
          (got + 1)
          (out ++ head c ∷ [])
          (record c { r = c.r + 1 })
unfolding read_from
read_from_plain killed n dst got out c more line_goes_on inner =
    rw (read_from, more, line_goes_on, inner) refl

next_cells :
    (buf : List ℕ) (r len : ℕ)
    → cells buf input_buf_size ((r + 1) % input_buf_size) len
      ≡ cells buf input_buf_size ((r % input_buf_size + 1) % input_buf_size) len
next_cells buf r len = ap (λ k. cells buf input_buf_size k len) (omega arith)

read_from_line :
    (killed : Bool) (xs : List ℕ) (n dst got : ℕ) (out : List ℕ) (c : Cons)
    → All IsPlain xs
    → length xs < n
    → c.w ≡ c.r + suc (length xs)
    → cells c.buf input_buf_size (c.r % input_buf_size) (suc (length xs)) ≡ xs ++ newline ∷ []
    → read_from copies killed n dst got out c
      ≡ ends (ok (got + suc (length xs))) (out ++ (xs ++ newline ∷ [])) (record c { r = c.w })
read_from_line killed xs zero dst got out c plain more there line = absurd (omega (arith, more))
read_from_line killed [] (suc n) dst got out c plain more there line =
    let at = ap (λ l. get_or l 0 0) line in
    read_from-newline killed n dst got out c (ground (arith, there)) (ground (arith, at))
      (ground (arith, at))
    ∙ ap (λ b. ends (ok (got + 1)) (out ++ b ∷ []) (record c { r = c.r + 1 })) at
    ∙ ap (λ w. ends (ok (got + 1)) (out ++ newline ∷ []) (record c { r = w })) (sym there)
read_from_line killed (x ∷ xs) (suc n) dst got out c plain more there line =
    let at : head c ≡ x = ap (λ l. get_or l 0 0) line in
    read_from_plain killed n dst got out c (ground (arith, there)) (ground (arith, at, plain.0))
      (ground (arith, at, plain.0))
    ∙ ap
        (λ b.
          read_from copies killed n (dst + 1) (got + 1) (out ++ b ∷ []) (record c { r = c.r + 1 }))
        at
    ∙ read_from_line killed xs n (dst + 1) (got + 1) (out ++ x ∷ []) (record c { r = c.r + 1 })
        plain.1 (omega (arith, more)) (omega (arith, there))
        (next_cells c.buf c.r (suc (length xs)) ∙ ap (drop 1) line)
    ∙ ap2 (got + 1 + suc (length xs)) (omega arith) (append_assoc out (x ∷ []) (xs ++ newline ∷ []))
  where
    ap2 :
        (k : ℕ) {bytes bytes' : List ℕ}
        → k ≡ got + suc (suc (length xs))
        → bytes ≡ bytes'
        → ends (ok k) bytes (record c { r = c.w })
          ≡ ends (ok (got + suc (suc (length xs)))) bytes' (record c { r = c.w })
    ap2 k e e' = cc (e, e')

pub read-type_all :
    (s pgid dst n : ℕ) (killed : Bool) (xs : List ℕ) (c : Cons)
    → s < 2 ^ 63
    → Typed s [] c
    → All IsPlain xs
    → length xs < input_buf_size
    → length xs < n
    → taken (read copies killed dst n (type_all pgid (xs ++ newline ∷ []) c))
      ≡ (ok (suc (length xs)), xs ++ newline ∷ [])
unfolding read
read-type_all s pgid dst n killed xs c b h plain short more =
    let d : Cons = type_all pgid (xs ++ newline ∷ []) c in
    let h' : Submitted s (xs ++ newline ∷ []) d = type_all-Submitted s pgid xs c b h plain short in
    let longer = length-append xs (newline ∷ []) in
    ap taken (
      read_from_line killed xs n dst 0 [] d plain more (omega (arith, h'.at_w, h'.at_r, longer)) (
        cells_eq d.buf {k = suc (length xs)} (ap (λ r. r % input_buf_size) h'.at_r)
          (omega (arith, longer))
        ∙ h'.typed))
    ∙ ap (λ k. (ok k, xs ++ newline ∷ [])) (omega arith)
  where
    cells_eq :
        (buf : List ℕ) {i j k l : ℕ}
        → i ≡ j
        → k ≡ l
        → cells buf input_buf_size i k ≡ cells buf input_buf_size j l
    cells_eq buf e e' = cc (e, e')

-- ===== src/Console/Reached.antt =====
-- console.rs: the states that keystrokes and reads lead to, from the empty console. `uart`'s interrupts
-- bring the keystrokes one at a time, and the lock makes each of them and each stretch of a read between
-- two sleeps one step.
use web_os.Prelude.{
  ℕ, zero, suc, ◌+◌, ◌%◌, ◌^◌, ◌≤◌, ◌<◌, ◌≡◌, refl, Bool, true, false, List, [], ◌∷◌, ◌++◌, arith,
  get_or, replicate, ltb, ◌==◌, All, if_intro, if◌then◌else◌,
}
use web_os.Errors.{Result, ok, err, interrupted}
use web_os.Console.{Cons, ctrl, newline, input_buf_size, history_size, new}
use web_os.Console.Keys.{intr}
use web_os.Console.Reads.{Run, ends, sleeps, read, read_from}
use web_os.Console.Valid.{Satisfies, IsKept, IsRow, IsFit, keep}
use web_os.Console.Preserved.{intr-Satisfies}

-- The line starts before its end, and neither the bytes handed over nor the line overrun the buffer.
abbrev pub Within : (r w e line_start : ℕ) → Type 0
Within r w e line_start =
    (line_start ≤ e) × (r ≤ w) × (w ≤ r + input_buf_size) × (e ≤ r + input_buf_size)

-- With fewer than 2^63 bytes read.
abbrev pub Bounded : (r w e line_start : ℕ) → Type 0
Bounded r w e line_start = Within r w e line_start × (r < 2 ^ 63)

Bounded-IsKept : IsKept Bounded
Bounded-IsKept = record {
  back =
      λ r w e line_start h other. ((omega (arith, h, other), h.0.1, h.0.2, omega (arith, h)), h.1);
  add = λ r w e line_start h room. ((omega (arith, h), h.0.1, h.0.2, omega (arith, h, room)), h.1);
  submit = λ r w e line_start h room. (
    (omega (arith, h), omega (arith, h, room), omega (arith, h, room), omega (arith, h, room)),
    h.1,
  );
  submit_line = λ r w e line_start h room.
      ((omega arith, omega (arith, h, room), omega (arith, h, room), omega (arith, h, room)), h.1);
}

abbrev pub IsValid : Cons → Type 0
IsValid c = Satisfies Within c

bounded : (c : Cons) → IsValid c → c.r < 2 ^ 63 → Satisfies Bounded c
bounded c h b = record { whole = h.whole; indices = (h.indices, b); past = h.past }

abbrev pub state : Run → Cons
state (ends res out c) = c
state (sleeps n out c) = c

IsValid-next : (c : Cons) → IsValid c → (c.r == c.w) ≡ false → IsValid (record c { r = c.r + 1 })
IsValid-next c h more = record {
  whole = h.whole;
  indices = (
    h.indices.0,
    ground (arith, h.indices, more),
    omega (arith, h.indices),
    omega (arith, h.indices),
  );
  past = keep c c.buf (c.r + 1) c.w c.e c.line_start c.effects h.past;
}

-- One round of a read, from what its three tests say.
module _ (copyout : ℕ → ℕ → Result (Unit {0})) where
  read_from-IsValid :
      (killed : Bool) (n dst got : ℕ) (out : List ℕ) (c : Cons)
      → IsValid c
      → IsValid (state (read_from copyout killed n dst got out c))
  unfolding read_from
  read_from-IsValid killed zero dst got out c h = h
  read_from-IsValid killed (suc n) dst got out c h =
      test (read_from-IsValid killed n (dst + 1) (got + 1) _ _) (c.r == c.w) (IsValid-next c h)
    where
      x : ℕ
      x = get_or c.buf (c.r % input_buf_size) 0

      next : Cons
      next = record c { r = c.r + 1 }

      final :
          (IsValid next
            → IsValid (state (read_from copyout killed n (dst + 1) (got + 1) (out ++ x ∷ []) next)))
          → (nl : Bool) → IsValid next
          → IsValid (
              state (elim nl [
                | true ↦ ends (ok (got + 1)) (out ++ x ∷ []) next
                | false ↦ read_from copyout killed n (dst + 1) (got + 1) (out ++ x ∷ []) next
              ]))
      final rest true h' = h'
      final rest false h' = rest h'

      copied :
          (IsValid next
            → IsValid (state (read_from copyout killed n (dst + 1) (got + 1) (out ++ x ∷ []) next)))
          → (res : Result (Unit {0})) → IsValid next
          → IsValid (
              state (elim res [
                | err e ↦ ends (err e) out next
                | ok u ↦ elim (x == newline) [
                  | true ↦ ends (ok (got + 1)) (out ++ x ∷ []) next
                  | false ↦ read_from copyout killed n (dst + 1) (got + 1) (out ++ x ∷ []) next
                ]
              ]))
      copied rest (err e) h' = h'
      copied rest (ok u) h' = final rest (x == newline) h'

      fetched :
          (IsValid next
            → IsValid (state (read_from copyout killed n (dst + 1) (got + 1) (out ++ x ∷ []) next)))
          → (eof : Bool) → IsValid next
          → IsValid (
              state (elim eof [
                | true ↦ ends (ok got) out (if ltb 0 got then c else next)
                | false ↦ elim (copyout dst x) [
                  | err e ↦ ends (err e) out next
                  | ok u ↦ elim (x == newline) [
                    | true ↦ ends (ok (got + 1)) (out ++ x ∷ []) next
                    | false ↦ read_from copyout killed n (dst + 1) (got + 1) (out ++ x ∷ []) next
                  ]
                ]
              ]))
      fetched rest true h' = if_intro IsValid (ltb 0 got) c next (λ e. h) (λ e. h')
      fetched rest false h' = copied rest (copyout dst x) h'

      test :
          (IsValid next
            → IsValid (state (read_from copyout killed n (dst + 1) (got + 1) (out ++ x ∷ []) next)))
          → (empty : Bool) → (empty ≡ false → IsValid next)
          → IsValid (
              state (elim empty [
                | true ↦ if killed then ends (err interrupted) out c else sleeps (suc n) out c
                | false ↦ elim (x == ctrl b'D') [
                  | true ↦ ends (ok got) out (if ltb 0 got then c else next)
                  | false ↦ elim (copyout dst x) [
                    | err e ↦ ends (err e) out next
                    | ok u ↦ elim (x == newline) [
                      | true ↦ ends (ok (got + 1)) (out ++ x ∷ []) next
                      | false ↦ read_from copyout killed n (dst + 1) (got + 1) (out ++ x ∷ []) next
                    ]
                  ]
                ]
              ]))
      test rest true h' = if_intro (λ run. IsValid (state run)) killed _ _ (λ e. h) (λ e. h)
      test rest false h' = fetched rest (x == ctrl b'D') (h' refl)

-- What keystrokes and reads lead to, as long as fewer than 2^63 bytes have been read.
pub data Reached : Cons → Type 0 where
  start : Reached new
  key : (pgid x : ℕ) {c : Cons} → Reached c → Reached (intr pgid x c)
  reads :
      (copyout : ℕ → ℕ → Result (Unit {0})) (killed : Bool) (dst n : ℕ) {c : Cons}
      → Reached c
      → (state (read copyout killed dst n c)).r < 2 ^ 63
      → Reached (state (read copyout killed dst n c))

All-replicate {ℓ} : {A : Type ℓ} (P : A → Type 0) (n : ℕ) (x : A) → P x → All P (replicate n x)
All-replicate P zero x h = tt
All-replicate P (suc n) x h = (h, All-replicate P n x h)

new-IsValid : IsValid new
new-IsValid = record {
  whole = refl;
  indices = (omega arith, omega arith, omega arith, omega arith);
  past = record {
    rows = refl;
    lens = refl;
    all_rows = All-replicate IsRow history_size (replicate input_buf_size 0) refl;
    all_lens = All-replicate IsFit history_size 0 (omega arith);
    count_in = omega arith;
    next_in = omega arith;
    cursor_in = tt;
    saved_row = refl;
    saved_in = omega arith;
    escape_in = omega arith;
  };
}

intr-IsValid :
    (pgid x : ℕ) (c : Cons)
    → IsValid c × (c.r < 2 ^ 63)
    → IsValid (intr pgid x c) × ((intr pgid x c).r < 2 ^ 63)
intr-IsValid pgid x c h =
    let h' = intr-Satisfies Bounded Bounded-IsKept pgid x c (bounded c h.0 h.1) in
    (record { whole = h'.whole; indices = h'.indices.0; past = h'.past }, h'.indices.1)

pub Reached-IsValid : (c : Cons) → Reached c → IsValid c × (c.r < 2 ^ 63)
unfolding read
Reached-IsValid c start = (new-IsValid, omega arith)
Reached-IsValid d (key pgid x {c} h) = intr-IsValid pgid x c (Reached-IsValid c h)
Reached-IsValid d (reads copyout killed dst n {c} h bound) =
    (read_from-IsValid copyout killed n dst 0 [] c (Reached-IsValid c h).0, bound)

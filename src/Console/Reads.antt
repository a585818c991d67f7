-- ===== src/Console/Reads.antt =====
-- console.rs: what the system calls do: reading, polling, and the session of the terminal.
use web_os.Prelude.{
  ℕ, zero, suc, ◌+◌, ◌%◌, Bool, true, false, not, ◌&&◌, ◌||◌, List, [], ◌∷◌, ◌++◌, get_or, ltb,
  ◌==◌, if◌then◌else◌,
}
use web_os.Errors.{Result, ok, err, interrupted, permission_denied}
use web_os.Console.{Cons, ctrl, newline, input_buf_size}

-- How far a read comes: to its end, with the bytes that were copied out, or to a sleep.
pub data Run : Type 0 where
  ends : Result ℕ → List ℕ → Cons → Run
  sleeps : ℕ → List ℕ → Cons → Run

-- `while n > 0`, with the bytes copied so far. `target - n` is their number; `copyout` is
-- `either_copyout` of the next byte.
module _ (copyout : ℕ → ℕ → Result (Unit {0})) where
  unfoldable pub read_from : Bool → ℕ → ℕ → ℕ → List ℕ → Cons → Run
  read_from killed zero dst got out c = ends (ok got) out c
  read_from killed (suc n) dst got out c =
      let x = get_or c.buf (c.r % input_buf_size) 0 in
      let next = record c { r = c.r + 1 } in
      elim (c.r == c.w) [
        | true ↦ if killed then ends (err interrupted) out c else sleeps (suc n) out c
        | false ↦ elim (x == ctrl b'D') [
          | true ↦ ends (ok got) out (if ltb 0 got then c else next)
          | false ↦ elim (copyout dst x) [
            | err e ↦ ends (err e) out next
            | ok u ↦ elim (x == newline) [
              | true ↦ ends (ok (got + 1)) (out ++ x ∷ []) next
              | false ↦ read_from killed n (dst + 1) (got + 1) (out ++ x ∷ []) next
            ]
          ]
        ]
      ]

  unfoldable pub read : Bool → ℕ → ℕ → Cons → Run
  read killed dst n c = read_from killed n dst 0 [] c

unfoldable pub readable : Cons → Bool
readable c = not (c.r == c.w)

unfoldable pub is_foreground : ℕ → Cons → Bool
is_foreground pgid c = c.fg_pgrp == 0 || c.fg_pgrp == pgid

-- The check and the change that both setters begin with.
unfoldable pub set_session : ℕ → Cons → Result (Unit {0}) × Cons
set_session sid c =
    if not (c.session == 0) && not (c.session == sid)
    then (err permission_denied, c)
    else (ok tt, if c.session == 0 then record c { session = sid } else c)

unfoldable pub set_fg_pgrp : ℕ → ℕ → Cons → Result (Unit {0}) × Cons
set_fg_pgrp sid pgid c =
    if not (c.session == 0) && not (c.session == sid) then (err permission_denied, c) else (
      ok tt,
      record (if c.session == 0 then record c { session = sid } else c) { fg_pgrp = pgid },
    )

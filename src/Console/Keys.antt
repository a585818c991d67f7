-- ===== src/Console/Keys.antt =====
-- console.rs: the escape sequences of the arrow keys and the input interrupt handler, `CONS.intr(c)`.
use Prim.Native.Nat.{bit_or}
use web_os.Prelude.{
  ℕ, none, ◌+◌, ◌-◌, ◌%◌, Bool, true, false, ◌&&◌, ◌||◌, not, List, [], ◌∷◌, set, ltb, ◌==◌,
  if◌then◌else◌,
}
use web_os.Console.{
  Cons, kill, dump, wakeup, ctrl, newline, input_buf_size, pending, putc, push_history, clear_line,
  history_up, history_down,
}

-- signal.rs
abbrev pub sigint : ℕ
sigint = 2

abbrev pub sigtstp : ℕ
sigtstp = 20

-- The last byte of an escape sequence.
unfoldable pub arrow : ℕ → Cons → Cons
arrow x c =
    if x == b'A' || x == b'D'
    then history_up c
    else if x == b'B' || x == b'C'
    then history_down c
    else c

-- Whether the byte belongs to an escape sequence.
unfoldable pub handle_escape : ℕ → Cons → Bool × Cons
handle_escape x c =
    if c.esc_state == 0
    then (if x == 0x1b then (true, record c { esc_state = 1 }) else (false, c))
    else if c.esc_state == 1
    then (true, record c { esc_state = if x == b'[' then 2 else 0 })
    else if c.esc_state == 2
    then (true, arrow x (record c { esc_state = 0 }))
    else (true, record c { esc_state = 0 })

-- Control-C and control-Z: `pgid` is the group of the running process, 0 if there is none.
unfoldable pub signal : ℕ → ℕ → Cons → Cons
signal pgid sig c =
    let target = if c.fg_pgrp == 0 then pgid else c.fg_pgrp in
    if target == 0 then c else record c { effects = kill target sig ∷ c.effects }

unfoldable pub kill_line : Cons → Cons
kill_line c = record (clear_line c) { history_cursor = none }

unfoldable pub backspace : Cons → Cons
backspace c =
    record (if c.e == c.line_start then c else putc (ctrl b'H') (record c { e = c.e - 1 })) {
      history_cursor = none;
    }

-- The echo and the storing of one byte.
unfoldable pub store : ℕ → Cons → Cons
store x c =
    putc x
      (record c { buf = set c.buf (c.e % input_buf_size) x; e = c.e + 1; history_cursor = none })

-- What follows a byte that may end the line.
unfoldable pub finish : ℕ → Cons → Cons
finish x c =
    let c' =
      if x == newline then (let d = push_history c in record d { line_start = d.e }) else c in
    if x == newline || x == ctrl b'D' || pending c == input_buf_size
    then record c' { w = c'.e; effects = wakeup ∷ c'.effects }
    else c

unfoldable pub ordinary : ℕ → Cons → Cons
ordinary x c =
    let x' = if x == 13 then newline else x in
    if not (x == 0) && ltb (pending c) input_buf_size then finish x' (store x' c) else c

-- The `match` of `intr`. The guard of the erasing key is `m == ctrl(b'H') | b'\x7f'`, where `|` joins
-- the two bytes before the comparison.
unfoldable pub dispatch : ℕ → ℕ → Cons → Cons
dispatch pgid x c =
    if x == ctrl b'C'
    then signal pgid sigint c
    else if x == ctrl b'Z'
    then signal pgid sigtstp c
    else if x == ctrl b'P'
    then record c { effects = dump ∷ c.effects }
    else if x == ctrl b'U'
    then kill_line c
    else if x == bit_or (ctrl b'H') 0x7f
    then backspace c
    else ordinary x c

unfoldable pub intr : ℕ → ℕ → Cons → Cons
intr pgid x c = let (taken, c') = handle_escape x c in if taken then c' else dispatch pgid x c'

-- Keystrokes one after the other.
unfoldable pub type_all : ℕ → List ℕ → Cons → Cons
type_all pgid [] c = c
type_all pgid (x ∷ xs) c = type_all pgid xs (intr pgid x c)

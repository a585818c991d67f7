-- ===== src/Console.antt =====
-- crates/kernel/src/console.rs: the state of the console and the editing of its input line. What the
-- console does to the outside (the echo, signals, wake-ups) is a list, the newest first. The indices r,
-- w, e and line_start are taken in ℕ, since there are never 2^64 keystrokes; their difference wraps
-- around as in the code. Console/Keys has the interrupt handler, Console/Reads the system calls.
pub mod Keys
pub mod Reads
pub mod Valid
pub mod Preserved
pub mod Stuck
pub mod Reached
pub mod Typing
pub mod Lines
mod Tests
use web_os.Prelude.{
  ℕ, zero, suc, ◌+◌, ◌-◌, ◌%◌, ◌^◌, Option, none, some, Bool, true, false, ◌&&◌, ◌||◌, List, [],
  ◌∷◌, ◌++◌, get_or, set, take, drop, length, replicate, ltb, leb, ◌==◌, if◌then◌else◌,
}

-- `ctrl(x)`
abbrev pub ctrl : ℕ → ℕ
ctrl x = x - b'@'

abbrev pub newline : ℕ
newline = 10

abbrev pub input_buf_size : ℕ
input_buf_size = 128

abbrev pub history_size : ℕ
history_size = 16

pub data Effect : Type 0 where
  echo : ℕ → Effect
  kill : ℕ → ℕ → Effect
  dump wakeup : Effect

pub record Cons : Type 0 where
  pub buf : List ℕ
  pub r : ℕ
  pub w : ℕ
  pub e : ℕ
  pub line_start : ℕ
  pub session : ℕ
  pub fg_pgrp : ℕ
  pub history : List (List ℕ)
  pub history_len : List ℕ
  pub history_count : ℕ
  pub history_next : ℕ
  pub history_cursor : Option ℕ
  pub history_saved : List ℕ
  pub history_saved_len : ℕ
  pub esc_state : ℕ
  pub effects : List Effect

abbrev pub new : Cons
new = record {
  buf = replicate input_buf_size 0;
  r = 0;
  w = 0;
  e = 0;
  line_start = 0;
  session = 0;
  fg_pgrp = 0;
  history = replicate history_size (replicate input_buf_size 0);
  history_len = replicate history_size 0;
  history_count = 0;
  history_next = 0;
  history_cursor = none;
  history_saved = replicate input_buf_size 0;
  history_saved_len = 0;
  esc_state = 0;
  effects = [];
}

-- `(self.e - self.r).0` on wrapping numbers.
abbrev pub pending : Cons → ℕ
pending c = (c.e + 2 ^ 64 - c.r) % 2 ^ 64

abbrev pub putc : ℕ → Cons → Cons
putc x c = record c { effects = echo x ∷ c.effects }

pub history_ring_index : Cons → ℕ → ℕ
history_ring_index c idx =
    if ltb c.history_count history_size then idx else (c.history_next + idx) % history_size

-- The bytes that the loop of `capture_line` takes, with the rounds left and the current index.
pub capture_from : ℕ → ℕ → Cons → List ℕ
capture_from zero idx c = []
capture_from (suc rounds) idx c =
    let b = get_or c.buf (idx % input_buf_size) 0 in
    let rest = capture_from rounds (idx + 1) c in
    if idx == c.e then [] else if b == newline then [] else b ∷ rest

pub capture_line : Cons → List ℕ
capture_line c = capture_from input_buf_size c.line_start c

-- `dst[..len].copy_from_slice(line)`
abbrev pub copy_in : List ℕ → List ℕ → List ℕ
copy_in dst line = line ++ drop (length line) dst

pub push_history : Cons → Cons
push_history c =
    let line = capture_line c in
    let idx = c.history_next in
    let c' = record c { history_cursor = none; history_saved_len = 0 } in
    if length line == 0 then c' else record c' {
      history = set c.history idx (copy_in (get_or c.history idx []) line);
      history_len = set c.history_len idx (length line);
      history_next = (c.history_next + 1) % history_size;
      history_count =
          if ltb c.history_count history_size then c.history_count + 1 else c.history_count;
    }

-- `while self.e != self.line_start`: there are as many rounds as e is ahead of line_start.
pub clear_from : ℕ → Cons → Cons
clear_from zero c = c
clear_from (suc rounds) c =
    let rest = clear_from rounds (putc (ctrl b'H') (record c { e = c.e - 1 })) in
    if c.e == c.line_start then c else rest

pub clear_line : Cons → Cons
clear_line c = clear_from (c.e - c.line_start) c

pub insert_byte : ℕ → Cons → Cons
insert_byte x c =
    if x == 0 || leb input_buf_size (pending c)
    then c
    else putc x (record c { buf = set c.buf (c.e % input_buf_size) x; e = c.e + 1 })

-- `for i in 0..len { self.insert_byte(bytes[i]) }`
pub insert_all : List ℕ → Cons → Cons
insert_all [] c = c
insert_all (x ∷ xs) c = insert_all xs (insert_byte x c)

pub load_history : ℕ → Cons → Cons
load_history idx c =
    let ring_idx = history_ring_index c idx in
    insert_all (take (get_or c.history_len ring_idx 0) (get_or c.history ring_idx []))
      (clear_line c)

-- Where the cursor goes, and what is saved at the first step up.
abbrev pub saved : Cons → Cons
saved c =
    let line = capture_line c in
    record c { history_saved = copy_in c.history_saved line; history_saved_len = length line }

pub history_up : Cons → Cons
history_up c = if c.history_count == 0 then c else elim c.history_cursor [
  | none ↦
      load_history (c.history_count - 1)
        (record (saved c) { history_cursor = some (c.history_count - 1) })
  | some cur ↦ load_history (cur - 1) (record c { history_cursor = some (cur - 1) })
]

pub history_down : Cons → Cons
history_down c = elim c.history_cursor [
  | none ↦ c
  | some cur ↦
      if ltb (cur + 1) c.history_count
      then load_history (cur + 1) (record c { history_cursor = some (cur + 1) })
      else insert_all (take c.history_saved_len c.history_saved)
          (clear_line (record c { history_cursor = none }))
]

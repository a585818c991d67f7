-- ===== src/Console/Preserved.antt =====
-- console.rs: every keystroke keeps the state of the console well-formed.
use Prim.Native.Nat.{bit_or}
use web_os.Prelude.{
  ℕ, ◌+◌, ◌-◌, ◌%◌, ◌≤◌, ◌<◌, ◌≡◌, ◌∙◌, Option, none, some, Bool, false, not, ◌&&◌, ◌||◌, List, [],
  ◌∷◌, arith, set, take, length, length-set, ltb, ◌==◌, if_intro, if◌then◌else◌,
}
use web_os.Console.{
  Cons, Effect, echo, wakeup, ctrl, newline, input_buf_size, pending, capture_line, push_history,
  clear_line, load_history, saved, history_up, history_down, insert_all,
}
use web_os.Console.Keys.{
  arrow, handle_escape, signal, sigint, sigtstp, kill_line, backspace, store, finish, ordinary,
  dispatch, intr, type_all,
}
use web_os.Console.Valid.{
  Satisfies, IsKept, HasHistory, Below, keep, at_cursor, push_history-HasHistory,
  clear_line-Satisfies, load_history-Satisfies, set_cursor-Satisfies, insert_all-Satisfies,
  length-copy_in, length-capture_line,
}

module _ (Q : (r w e line_start : ℕ) → Type 0) (kept : IsKept Q) where
  set_effects-Satisfies :
      (c : Cons) (effects : List Effect)
      → Satisfies Q c
      → Satisfies Q (record c { effects = effects })
  set_effects-Satisfies c effects h = record {
    whole = h.whole;
    indices = h.indices;
    past = keep c c.buf c.r c.w c.e c.line_start effects h.past;
  }

  saved-Satisfies : (c : Cons) → Satisfies Q c → Satisfies Q (saved c)
  saved-Satisfies c h = record {
    whole = h.whole;
    indices = h.indices;
    past = record {
      rows = h.past.rows;
      lens = h.past.lens;
      all_rows = h.past.all_rows;
      all_lens = h.past.all_lens;
      count_in = h.past.count_in;
      next_in = h.past.next_in;
      cursor_in = h.past.cursor_in;
      saved_row =
          length-copy_in c.history_saved (capture_line c)
            (omega (arith, length-capture_line c, h.past.saved_row))
          ∙ h.past.saved_row;
      saved_in = length-capture_line c;
      escape_in = h.past.escape_in;
    };
  }

  history_up-Satisfies : (c : Cons) → Satisfies Q c → Satisfies Q (history_up c)
  unfolding history_up
  history_up-Satisfies c h =
      if_intro (Satisfies Q) (c.history_count == 0) c _ (λ e. h)
        (λ some_lines. move c.history_cursor h.past.cursor_in some_lines)
    where
      move :
          (cursor : Option ℕ)
          → Below cursor c.history_count
          → (c.history_count == 0) ≡ false
          → Satisfies Q (elim cursor [
            | none ↦
                load_history
                  (c.history_count - 1)
                  (record (saved c) { history_cursor = some (c.history_count - 1) })
            | some cur ↦ load_history (cur - 1) (record c { history_cursor = some (cur - 1) })
          ])
      move none u lines = load_history-Satisfies Q kept _ _ (
          set_cursor-Satisfies Q kept (some (c.history_count - 1)) c.esc_state (saved c)
            (ground (arith, lines)) h.past.escape_in (saved-Satisfies c h))
      move (some cur) below lines = load_history-Satisfies Q kept _ _ (
          set_cursor-Satisfies Q kept (some (cur - 1)) c.esc_state c (omega (arith, below))
            h.past.escape_in h)

  history_down-Satisfies : (c : Cons) → Satisfies Q c → Satisfies Q (history_down c)
  unfolding history_down
  history_down-Satisfies c h = move c.history_cursor
    where
      move :
          (cursor : Option ℕ)
          → Satisfies Q (elim cursor [
            | none ↦ c
            | some cur ↦
                if ltb (cur + 1) c.history_count
                then load_history (cur + 1) (record c { history_cursor = some (cur + 1) })
                else insert_all
                    (take c.history_saved_len c.history_saved)
                    (clear_line (record c { history_cursor = none }))
          ])
      move none = h
      move (some cur) =
          if_intro (Satisfies Q) (ltb (cur + 1) c.history_count) _ _
            (λ e. load_history-Satisfies Q kept _ _ (
              set_cursor-Satisfies Q kept (some (cur + 1)) c.esc_state c (ground (arith, e))
                h.past.escape_in h))
            (λ e. insert_all-Satisfies Q kept _ _ (
              clear_line-Satisfies Q kept _
                (set_cursor-Satisfies Q kept none c.esc_state c tt h.past.escape_in h)))

  set_escape-Satisfies :
      (c : Cons) (esc : ℕ) → esc ≤ 2 → Satisfies Q c → Satisfies Q (record c { esc_state = esc })
  set_escape-Satisfies c esc fits h =
      set_cursor-Satisfies Q kept c.history_cursor esc c h.past.cursor_in fits h

  arrow-Satisfies : (x : ℕ) (c : Cons) → Satisfies Q c → Satisfies Q (arrow x c)
  unfolding arrow
  arrow-Satisfies x c h =
      if_intro (Satisfies Q) (x == b'A' || x == b'D') _ _ (λ e. history_up-Satisfies c h)
        (λ e.
          if_intro (Satisfies Q) (x == b'B' || x == b'C') _ _ (λ e. history_down-Satisfies c h)
            (λ e. h))

  abbrev SecondSatisfies : Bool × Cons → Type 0
  SecondSatisfies (b, c) = Satisfies Q c

  handle_escape-Satisfies : (x : ℕ) (c : Cons) → Satisfies Q c → Satisfies Q (handle_escape x c).1
  unfolding handle_escape
  handle_escape-Satisfies x c h =
      if_intro SecondSatisfies (c.esc_state == 0) _ _
        (λ e.
          if_intro SecondSatisfies (x == 0x1b) _ _ (λ e. set_escape-Satisfies c 1 (omega arith) h)
            (λ e. h))
        (λ e.
          if_intro SecondSatisfies (c.esc_state == 1) _ _
            (λ e. set_escape-Satisfies c (if x == b'[' then 2 else 0) (ground arith) h)
            (λ e.
              if_intro SecondSatisfies (c.esc_state == 2) _ _
                (λ e.
                  arrow-Satisfies x (record c { esc_state = 0 })
                    (set_escape-Satisfies c 0 (omega arith) h))
                (λ e. set_escape-Satisfies c 0 (omega arith) h)))

  signal-Satisfies : (pgid sig : ℕ) (c : Cons) → Satisfies Q c → Satisfies Q (signal pgid sig c)
  unfolding signal
  signal-Satisfies pgid sig c h =
      if_intro (Satisfies Q) ((if c.fg_pgrp == 0 then pgid else c.fg_pgrp) == 0) _ _ (λ e. h)
        (λ e. set_effects-Satisfies c _ h)

  no_cursor-Satisfies :
      (c : Cons) → Satisfies Q c → Satisfies Q (record c { history_cursor = none })
  no_cursor-Satisfies c h = set_cursor-Satisfies Q kept none c.esc_state c tt h.past.escape_in h

  kill_line-Satisfies : (c : Cons) → Satisfies Q c → Satisfies Q (kill_line c)
  unfolding kill_line
  kill_line-Satisfies c h = no_cursor-Satisfies (clear_line c) (clear_line-Satisfies Q kept c h)

  backspace-Satisfies : (c : Cons) → Satisfies Q c → Satisfies Q (backspace c)
  unfolding backspace
  backspace-Satisfies c h = no_cursor-Satisfies _ (
      if_intro (Satisfies Q) (c.e == c.line_start) c _ (λ e. h)
        (λ e. record {
          whole = h.whole;
          indices = kept.back c.r c.w c.e c.line_start h.indices (ground (arith, e));
          past = keep c c.buf c.r c.w (c.e - 1) c.line_start (echo (ctrl b'H') ∷ c.effects) h.past;
        }))

  -- The entry of the history leaves the line.
  abbrev Line : (s d : Cons) → Type 0
  Line s d = (length d.buf ≡ input_buf_size) × Q d.r d.e d.e d.e

  push_history-Line : (s : Cons) → Line s s → Line s (push_history s)
  unfolding push_history
  push_history-Line s h = if_intro (Line s) (length (capture_line s) == 0) _ _ (λ e. h) (λ e. h)

  store-Satisfies :
      (x : ℕ) (c : Cons) → pending c < input_buf_size → Satisfies Q c → Satisfies Q (store x c)
  unfolding store
  store-Satisfies x c room h = record {
    whole = length-set c.buf (c.e % input_buf_size) x ∙ h.whole;
    indices = kept.add c.r c.w c.e c.line_start h.indices room;
    past = at_cursor _ none c.esc_state tt h.past.escape_in (
        keep c (set c.buf (c.e % input_buf_size) x) c.r c.w (c.e + 1) c.line_start
          (echo x ∷ c.effects) h.past);
  }

  abbrev HandsOver : Cons → Type 0
  HandsOver d = Satisfies Q (record d { w = d.e; effects = wakeup ∷ d.effects })

  hand_over-Line :
      (s : Cons)
      → Line s s
      → HasHistory s
      → HandsOver (let d = push_history s in record d { line_start = d.e })
  hand_over-Line s line past =
      let line' = push_history-Line s line in
      let d = push_history s in
      record {
        whole = line'.0;
        indices = line'.1;
        past = keep d d.buf d.r d.e d.e d.e (wakeup ∷ d.effects) (push_history-HasHistory s past);
      }

  -- The byte is stored, and the line handed over or not.
  finish-Satisfies :
      (x : ℕ) (c : Cons)
      → pending c < input_buf_size
      → Satisfies Q c
      → Satisfies Q (finish x (store x c))
  unfolding finish store
  finish-Satisfies x c room h =
      let s = store x c in
      let h' = store-Satisfies x c room h in
      if_intro (Satisfies Q) (x == newline || x == ctrl b'D' || pending s == input_buf_size) _ s
        (λ e.
          if_intro HandsOver (x == newline) _ s
            (λ nl.
              hand_over-Line s (h'.whole, kept.submit_line c.r c.w c.e c.line_start h.indices room)
                h'.past)
            (λ other. record {
              whole = h'.whole;
              indices = kept.submit c.r c.w c.e c.line_start h.indices room;
              past = keep s s.buf s.r s.e s.e s.line_start (wakeup ∷ s.effects) h'.past;
            }))
        (λ e. h')

  ordinary-Satisfies : (x : ℕ) (c : Cons) → Satisfies Q c → Satisfies Q (ordinary x c)
  unfolding ordinary
  ordinary-Satisfies x c h =
      if_intro (Satisfies Q) (not (x == 0) && ltb (pending c) input_buf_size) _ c
        (λ e. finish-Satisfies (if x == 13 then newline else x) c (ground (arith, e)) h) (λ e. h)

  dispatch-Satisfies : (pgid x : ℕ) (c : Cons) → Satisfies Q c → Satisfies Q (dispatch pgid x c)
  unfolding dispatch
  dispatch-Satisfies pgid x c h =
      if_intro (Satisfies Q) (x == ctrl b'C') _ _ (λ e. signal-Satisfies pgid sigint c h)
        (λ e.
          if_intro (Satisfies Q) (x == ctrl b'Z') _ _ (λ e. signal-Satisfies pgid sigtstp c h)
            (λ e.
              if_intro (Satisfies Q) (x == ctrl b'P') _ _ (λ e. set_effects-Satisfies c _ h)
                (λ e.
                  if_intro (Satisfies Q) (x == ctrl b'U') _ _ (λ e. kill_line-Satisfies c h)
                    (λ e.
                      if_intro (Satisfies Q) (x == bit_or (ctrl b'H') 0x7f) _ _
                        (λ e. backspace-Satisfies c h) (λ e. ordinary-Satisfies x c h)))))

  pub intr-Satisfies : (pgid x : ℕ) (c : Cons) → Satisfies Q c → Satisfies Q (intr pgid x c)
  unfolding intr
  intr-Satisfies pgid x c h =
      let h' = handle_escape-Satisfies x c h in
      if_intro (Satisfies Q) ((handle_escape x c).0) _ _ (λ e. h')
        (λ e. dispatch-Satisfies pgid x (handle_escape x c).1 h')

  pub type_all-Satisfies :
      (pgid : ℕ) (xs : List ℕ) (c : Cons) → Satisfies Q c → Satisfies Q (type_all pgid xs c)
  unfolding type_all
  type_all-Satisfies pgid [] c h = h
  type_all-Satisfies pgid (x ∷ xs) c h =
      type_all-Satisfies pgid xs (intr pgid x c) (intr-Satisfies pgid x c h)

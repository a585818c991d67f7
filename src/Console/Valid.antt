-- ===== src/Console/Valid.antt =====
-- console.rs: every keystroke keeps the state of the console well-formed, so that no index of the code
-- is out of bounds and no loop over the line runs past its start.
use web_os.Prelude.{
  ℕ, zero, suc, ◌+◌, ◌-◌, ◌%◌, ◌^◌, ◌≤◌, ◌<◌, ◌≡◌, ◌∙◌, ◌≢◌, Option, none, some, ◌||◌, List, [],
  ◌∷◌, arith, get_or, set, drop, length, length-set, length-append, All, leb, ◌==◌, if_intro,
}
use web_os.Console.{
  Cons, Effect, echo, ctrl, input_buf_size, history_size, pending, putc, capture_from, capture_line,
  copy_in, push_history, clear_from, clear_line, insert_byte, insert_all, load_history,
}

abbrev pub Below : Option ℕ → ℕ → Type 0
Below none n = Unit
Below (some k) n = k < n

abbrev pub IsRow : List ℕ → Type 0
IsRow row = length row ≡ input_buf_size

abbrev pub IsFit : ℕ → Type 0
IsFit n = n ≤ input_buf_size

-- The history and the escape state.
pub record HasHistory (c : Cons) : Type 0 where
  pub rows : length c.history ≡ history_size
  pub lens : length c.history_len ≡ history_size
  pub all_rows : All IsRow c.history
  pub all_lens : All IsFit c.history_len
  pub count_in : c.history_count ≤ history_size
  pub next_in : c.history_next < history_size
  pub cursor_in : Below c.history_cursor c.history_count
  pub saved_row : length c.history_saved ≡ input_buf_size
  pub saved_in : c.history_saved_len ≤ input_buf_size
  pub escape_in : c.esc_state ≤ 2

-- A property of r, w, e and line_start that editing keeps: taking back a byte of the line, adding one
-- while the buffer has room, and handing over the line.
pub record IsKept (Q : (r w e line_start : ℕ) → Type 0) : Type 0 where
  pub back : (r w e line_start : ℕ) → Q r w e line_start → e ≢ line_start → Q r w (e - 1) line_start
  pub add :
      (r w e line_start : ℕ)
      → Q r w e line_start
      → (e + 2 ^ 64 - r) % 2 ^ 64 < input_buf_size
      → Q r w (e + 1) line_start
  pub submit :
      (r w e line_start : ℕ)
      → Q r w e line_start
      → (e + 2 ^ 64 - r) % 2 ^ 64 < input_buf_size
      → Q r (e + 1) (e + 1) line_start
  pub submit_line :
      (r w e line_start : ℕ)
      → Q r w e line_start
      → (e + 2 ^ 64 - r) % 2 ^ 64 < input_buf_size
      → Q r (e + 1) (e + 1) (e + 1)

pub record Satisfies (Q : (r w e line_start : ℕ) → Type 0) (c : Cons) : Type 0 where
  pub whole : length c.buf ≡ input_buf_size
  pub indices : Q c.r c.w c.e c.line_start
  pub past : HasHistory c

All-set {ℓ} :
    {A : Type ℓ} (P : A → Type 0) (xs : List A) (i : ℕ) (x : A)
    → All P xs
    → P x
    → All P (set xs i x)
All-set P [] i x h p = tt
All-set P (y ∷ ys) zero x h p = (p, h.1)
All-set P (y ∷ ys) (suc i) x h p = (h.0, All-set P ys i x h.1 p)

All-get_or {ℓ} :
    {A : Type ℓ} (P : A → Type 0) (xs : List A) (i : ℕ) (d : A)
    → i < length xs
    → All P xs
    → P (get_or xs i d)
All-get_or P [] i d h all = absurd (omega arith)
All-get_or P (y ∷ ys) zero d h all = all.0
All-get_or P (y ∷ ys) (suc i) d h all = All-get_or P ys i d (omega arith) all.1

length-capture_from : (rounds idx : ℕ) (c : Cons) → length (capture_from rounds idx c) ≤ rounds
unfolding capture_from
length-capture_from zero idx c = omega arith
length-capture_from (suc rounds) idx c = ground (arith, length-capture_from rounds (idx + 1) c)

length-drop : (n : ℕ) (xs : List ℕ) → length (drop n xs) ≡ length xs - n
length-drop zero xs = omega arith
length-drop (suc n) [] = omega arith
length-drop (suc n) (x ∷ xs) = omega (arith, length-drop n xs)

pub length-copy_in :
    (dst line : List ℕ) → length line ≤ length dst → length (copy_in dst line) ≡ length dst
length-copy_in dst line h =
    omega (arith, h, length-append line (drop (length line) dst), length-drop (length line) dst)

pub length-capture_line : (c : Cons) → length (capture_line c) ≤ input_buf_size
unfolding capture_line
length-capture_line c = length-capture_from input_buf_size c.line_start c

-- The history does not depend on the line.
pub keep :
    (c : Cons) (buf : List ℕ) (r w e line_start : ℕ) (effects : List Effect)
    → HasHistory c
    → HasHistory
        (record c { buf = buf; r = r; w = w; e = e; line_start = line_start; effects = effects })
keep c buf r w e line_start effects h = record {
  rows = h.rows;
  lens = h.lens;
  all_rows = h.all_rows;
  all_lens = h.all_lens;
  count_in = h.count_in;
  next_in = h.next_in;
  cursor_in = h.cursor_in;
  saved_row = h.saved_row;
  saved_in = h.saved_in;
  escape_in = h.escape_in;
}

pub at_cursor :
    (c : Cons) (cursor : Option ℕ) (esc : ℕ)
    → Below cursor c.history_count
    → esc ≤ 2
    → HasHistory c
    → HasHistory (record c { history_cursor = cursor; esc_state = esc })
at_cursor c cursor esc below fits h = record {
  rows = h.rows;
  lens = h.lens;
  all_rows = h.all_rows;
  all_lens = h.all_lens;
  count_in = h.count_in;
  next_in = h.next_in;
  cursor_in = below;
  saved_row = h.saved_row;
  saved_in = h.saved_in;
  escape_in = fits;
}

pub push_history-HasHistory : (c : Cons) → HasHistory c → HasHistory (push_history c)
unfolding push_history
push_history-HasHistory c h =
    if_intro HasHistory (length (capture_line c) == 0) _ _
      (λ e. record {
        rows = h.rows;
        lens = h.lens;
        all_rows = h.all_rows;
        all_lens = h.all_lens;
        count_in = h.count_in;
        next_in = h.next_in;
        cursor_in = tt;
        saved_row = h.saved_row;
        saved_in = omega arith;
        escape_in = h.escape_in;
      })
      (λ e. record {
        rows = length-set c.history c.history_next _ ∙ h.rows;
        lens = length-set c.history_len c.history_next _ ∙ h.lens;
        all_rows = All-set IsRow c.history c.history_next _ h.all_rows (
            length-copy_in (get_or c.history c.history_next []) (capture_line c)
              (omega (arith, length-capture_line c, row))
            ∙ row);
        all_lens = All-set IsFit c.history_len c.history_next _ h.all_lens (length-capture_line c);
        count_in = ground (arith, h.count_in);
        next_in = omega arith;
        cursor_in = tt;
        saved_row = h.saved_row;
        saved_in = omega arith;
        escape_in = h.escape_in;
      })
  where
    row : length (get_or c.history c.history_next []) ≡ input_buf_size
    row = All-get_or IsRow c.history c.history_next [] (omega (arith, h.rows, h.next_in)) h.all_rows

-- Clearing and inserting move the edit index and the bytes.
module _ (Q : (r w e line_start : ℕ) → Type 0) (kept : IsKept Q) where
  clear_from-Satisfies : (rounds : ℕ) (c : Cons) → Satisfies Q c → Satisfies Q (clear_from rounds c)
  unfolding clear_from
  clear_from-Satisfies zero c h = h
  clear_from-Satisfies (suc rounds) c h =
      if_intro (Satisfies Q) (c.e == c.line_start) c _ (λ e. h)
        (λ e. clear_from-Satisfies rounds (putc (ctrl b'H') (record c { e = c.e - 1 })) (record {
          whole = h.whole;
          indices = kept.back c.r c.w c.e c.line_start h.indices (ground (arith, e));
          past = keep c c.buf c.r c.w (c.e - 1) c.line_start (echo (ctrl b'H') ∷ c.effects) h.past;
        }))

  pub clear_line-Satisfies : (c : Cons) → Satisfies Q c → Satisfies Q (clear_line c)
  unfolding clear_line
  clear_line-Satisfies c h = clear_from-Satisfies (c.e - c.line_start) c h

  insert_byte-Satisfies : (x : ℕ) (c : Cons) → Satisfies Q c → Satisfies Q (insert_byte x c)
  unfolding insert_byte
  insert_byte-Satisfies x c h =
      if_intro (Satisfies Q) (x == 0 || leb input_buf_size (pending c)) c _ (λ e. h)
        (λ e. record {
          whole = length-set c.buf (c.e % input_buf_size) x ∙ h.whole;
          indices = kept.add c.r c.w c.e c.line_start h.indices (ground (arith, e));
          past =
              keep c (set c.buf (c.e % input_buf_size) x) c.r c.w (c.e + 1) c.line_start
                (echo x ∷ c.effects) h.past;
        })

  pub insert_all-Satisfies :
      (xs : List ℕ) (c : Cons) → Satisfies Q c → Satisfies Q (insert_all xs c)
  unfolding insert_all
  insert_all-Satisfies [] c h = h
  insert_all-Satisfies (x ∷ xs) c h =
      insert_all-Satisfies xs (insert_byte x c) (insert_byte-Satisfies x c h)

  pub load_history-Satisfies :
      (idx : ℕ) (c : Cons) → Satisfies Q c → Satisfies Q (load_history idx c)
  unfolding load_history
  load_history-Satisfies idx c h = insert_all-Satisfies _ (clear_line c) (clear_line-Satisfies c h)

  pub set_cursor-Satisfies :
      (cursor : Option ℕ) (esc : ℕ) (c : Cons)
      → Below cursor c.history_count
      → esc ≤ 2
      → Satisfies Q c
      → Satisfies Q (record c { history_cursor = cursor; esc_state = esc })
  set_cursor-Satisfies cursor esc c below fits h = record {
    whole = h.whole;
    indices = h.indices;
    past = at_cursor c cursor esc below fits h.past;
  }

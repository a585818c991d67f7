-- ===== src/Console/Typing.antt =====
-- console.rs: a line that is typed on an empty console.
use mathlib.Core.Path.{subst}
use mathlib.Core.List.{append-nil, append_assoc}
use web_os.Prelude.{
  ℕ, suc, ◌+◌, ◌%◌, ◌^◌, ◌<◌, ◌≡◌, ◌∙◌, refl, ap, true, ◌&&◌, ◌||◌, List, [], ◌∷◌, ◌++◌, arith, set,
  length, length-set, length-append, All, ltb, leb, ◌==◌, if_intro,
}
use web_os.Prelude.Ring.{cells, cells-set}
use web_os.Console.{Cons, ctrl, newline, input_buf_size, pending, capture_line, push_history}
use web_os.Console.Keys.{handle_escape, store, finish, ordinary, dispatch, intr, type_all}

-- The printable bytes and control-H.
abbrev pub IsPlain : ℕ → Type 0
IsPlain x = ((leb 32 x && ltb x 127) || x == ctrl b'H') ≡ true

-- The bytes `xs` are typed on a console whose reader stands at `s`, and not handed over.
pub record Typed (s : ℕ) (xs : List ℕ) (c : Cons) : Type 0 where
  pub no_escape : c.esc_state ≡ 0
  pub whole : length c.buf ≡ input_buf_size
  pub at_r : c.r ≡ s
  pub at_w : c.w ≡ s
  pub at_e : c.e ≡ s + length xs
  pub typed : cells c.buf input_buf_size (s % input_buf_size) (length xs) ≡ xs

intr_plain :
    (pgid x : ℕ) (c : Cons)
    → IsPlain x
    → c.esc_state ≡ 0
    → pending c < input_buf_size
    → intr pgid x c ≡ finish x (store x c)
unfolding intr handle_escape dispatch ordinary
intr_plain pgid x c plain esc room = ground (arith, plain, esc, room)

intr-newline :
    (pgid : ℕ) (c : Cons)
    → c.esc_state ≡ 0
    → pending c < input_buf_size
    → intr pgid newline c ≡ finish newline (store newline c)
unfolding intr handle_escape dispatch ordinary
intr-newline pgid c esc room = ground (arith, esc, room)

finish_plain : (x : ℕ) (c : Cons) → IsPlain x → pending c < input_buf_size → finish x c ≡ c
unfolding finish
finish_plain x c plain room = ground (arith, plain, room)

room_for :
    (s : ℕ) (xs : List ℕ) (c : Cons)
    → s < 2 ^ 63
    → Typed s xs c
    → length xs < input_buf_size
    → pending c ≡ length xs
room_for s xs c b h short = omega (arith, h.at_e, h.at_r)

store-Typed :
    (s x : ℕ) (xs : List ℕ) (c : Cons)
    → Typed s xs c
    → length xs < input_buf_size
    → Typed s (xs ++ x ∷ []) (store x c)
unfolding store
store-Typed s x xs c h short = record {
  no_escape = h.no_escape;
  whole = length-set c.buf (c.e % input_buf_size) x ∙ h.whole;
  at_r = h.at_r;
  at_w = h.at_w;
  at_e = omega (arith, h.at_e, length-append xs (x ∷ []));
  typed =
      ap (λ n. cells (set c.buf (c.e % input_buf_size) x) input_buf_size (s % input_buf_size) n)
        longer
      ∙ cells-set c.buf input_buf_size x (length xs) (s % input_buf_size) (c.e % input_buf_size)
          (omega (arith, h.whole)) (omega arith) short (omega (arith, h.at_e))
      ∙ ap (λ ys. ys ++ x ∷ []) h.typed;
}
  where
    longer : length (xs ++ x ∷ []) ≡ suc (length xs)
    longer = omega (arith, length-append xs (x ∷ []))

plain-Typed :
    (s pgid x : ℕ) (xs : List ℕ) (c : Cons)
    → s < 2 ^ 63
    → Typed s xs c
    → IsPlain x
    → suc (length xs) < input_buf_size
    → Typed s (xs ++ x ∷ []) (intr pgid x c)
plain-Typed s pgid x xs c b h plain short =
    let before = room_for s xs c b h (omega (arith, short)) in
    let h' = store-Typed s x xs c h (omega (arith, short)) in
    let longer = length-append xs (x ∷ []) in
    let after = room_for s (xs ++ x ∷ []) (store x c) b h' (omega (arith, short, longer)) in
    rw
      (
        intr_plain pgid x c plain h.no_escape (omega (arith, before, short)),
        finish_plain x (store x c) plain (omega (arith, after, longer, short)),
      )
      h'

type_all-Typed :
    (s pgid : ℕ) (ys xs : List ℕ) (c : Cons)
    → s < 2 ^ 63
    → Typed s ys c
    → All IsPlain xs
    → length ys + length xs < input_buf_size
    → Typed s (ys ++ xs) (type_all pgid xs c)
unfolding type_all
type_all-Typed s pgid ys [] c b h plain short = rw (append-nil ys) h
type_all-Typed s pgid ys (x ∷ xs) c b h plain short =
    let h' = plain-Typed s pgid x ys c b h plain.0 (omega (arith, short)) in
    let rest =
      type_all-Typed s pgid (ys ++ x ∷ []) xs (intr pgid x c) b h' plain.1
        (omega (arith, short, length-append ys (x ∷ []))) in
    subst (λ l. Typed s l (type_all pgid xs (intr pgid x c))) (append_assoc ys (x ∷ []) xs) rest

-- A line that was handed over and that the reader has not begun.
pub record Submitted (s : ℕ) (xs : List ℕ) (c : Cons) : Type 0 where
  pub at_r : c.r ≡ s
  pub at_w : c.w ≡ s + length xs
  pub at_e : c.e ≡ s + length xs
  pub typed : cells c.buf input_buf_size (s % input_buf_size) (length xs) ≡ xs

-- What the reader looks at, which the entry of the history leaves.
abbrev SameLine : Cons → Cons → Type 0
SameLine c d = (d.buf ≡ c.buf) × (d.r ≡ c.r) × (d.e ≡ c.e)

push_history-SameLine : (c : Cons) → SameLine c (push_history c)
unfolding push_history
push_history-SameLine c =
    if_intro (SameLine c) (length (capture_line c) == 0) _ _ (λ e. (refl, refl, refl))
      (λ e. (refl, refl, refl))

finish-newline : (s : ℕ) (xs : List ℕ) (c : Cons) → Typed s xs c → Submitted s xs (finish newline c)
unfolding finish
finish-newline s xs c h =
    let same = push_history-SameLine c in
    record {
      at_r = same.1 ∙ h.at_r;
      at_w = same.2 ∙ h.at_e;
      at_e = same.2 ∙ h.at_e;
      typed =
          ap (λ buf. cells buf input_buf_size (s % input_buf_size) (length xs)) same.0 ∙ h.typed;
    }

newline-Submitted :
    (s pgid : ℕ) (xs : List ℕ) (c : Cons)
    → s < 2 ^ 63
    → Typed s xs c
    → length xs < input_buf_size
    → Submitted s (xs ++ newline ∷ []) (intr pgid newline c)
newline-Submitted s pgid xs c b h short =
    rw (intr-newline pgid c h.no_escape (omega (arith, room_for s xs c b h short, short)))
      (finish-newline s (xs ++ newline ∷ []) (store newline c) (store-Typed s newline xs c h short))

type_all-append :
    (pgid : ℕ) (xs ys : List ℕ) (c : Cons)
    → type_all pgid (xs ++ ys) c ≡ type_all pgid ys (type_all pgid xs c)
unfolding type_all
type_all-append pgid [] ys c = refl
type_all-append pgid (x ∷ xs) ys c = type_all-append pgid xs ys (intr pgid x c)

pub type_all-Submitted :
    (s pgid : ℕ) (xs : List ℕ) (c : Cons)
    → s < 2 ^ 63
    → Typed s [] c
    → All IsPlain xs
    → length xs < input_buf_size
    → Submitted s (xs ++ newline ∷ []) (type_all pgid (xs ++ newline ∷ []) c)
unfolding type_all
type_all-Submitted s pgid xs c b h plain short = rw (type_all-append pgid xs (newline ∷ []) c) (
    newline-Submitted s pgid xs (type_all pgid xs c) b
      (type_all-Typed s pgid [] xs c b h plain (omega (arith, short))) short)

-- ===== src/Console/Tests.antt =====
-- console.rs: the console on concrete keystrokes.
use web_os.Prelude.{◌^◌, ◌<◌, ◌≡◌, refl, false, [], ◌∷◌, arith}
use web_os.Errors.{ok}
use web_os.Console.{Cons, new, ctrl, newline}
use web_os.Console.Keys.{
  handle_escape, dispatch, ordinary, finish, store, kill_line, intr, type_all,
}
use web_os.Console.Reads.{read, read_from}
use web_os.Console.Reached.{IsValid, Reached, start, key, reads, state, Reached-IsValid}
use web_os.Console.Typing.{Typed}
use web_os.Console.Lines.{copies, taken, read-type_all}
use web_os.Console.Stuck.{type_all_behind}

-- `a`, control-D, a read of the `a`, a read of the end, control-U.
abbrev read_once : Cons → Cons
read_once c = state (read copies false 0 1 c)

abbrev behind : Cons
behind = intr 0 (ctrl b'U') (read_once (read_once (intr 0 (ctrl b'D') (intr 0 b'a' new))))

behind_reached : Reached behind
unfolding read read_from intr handle_escape dispatch ordinary finish store
behind_reached = key 0 (ctrl b'U') (
    reads copies false 0 1
      (reads copies false 0 1 (key 0 (ctrl b'D') (key 0 b'a' start)) (omega arith)) (omega arith))

behind_indices : (behind.r < 2 ^ 63) × (behind.e < behind.r)
unfolding read read_from intr handle_escape dispatch ordinary finish store kill_line
    web_os.Console.clear_line web_os.Console.clear_from
behind_indices = (omega arith, omega arith)

type_all_behind_example :
    ((type_all 0 (b'l' ∷ b's' ∷ newline ∷ []) behind).r ≡ behind.r)
    × ((type_all 0 (b'l' ∷ b's' ∷ newline ∷ []) behind).w ≡ behind.w)
    × ((type_all 0 (b'l' ∷ b's' ∷ newline ∷ []) behind).e < behind.r)
type_all_behind_example =
    type_all_behind 0 (b'l' ∷ b's' ∷ newline ∷ []) behind (Reached-IsValid behind behind_reached).0
      behind_indices.0 behind_indices.1

Reached-IsValid_example : IsValid behind × (behind.r < 2 ^ 63)
Reached-IsValid_example = Reached-IsValid behind behind_reached

new-Typed : Typed 0 [] new
new-Typed = record {
  no_escape = refl;
  whole = refl;
  at_r = refl;
  at_w = refl;
  at_e = refl;
  typed = refl;
}

read-type_all_example :
    taken (read copies false 0 80 (type_all 0 (b'l' ∷ ctrl b'H' ∷ b's' ∷ newline ∷ []) new))
    ≡ (ok 4, b'l' ∷ ctrl b'H' ∷ b's' ∷ newline ∷ [])
read-type_all_example =
    read-type_all 0 0 0 80 false (b'l' ∷ ctrl b'H' ∷ b's' ∷ []) new (omega arith) new-Typed
      (refl, (refl, (refl, tt))) (omega arith) (omega arith)

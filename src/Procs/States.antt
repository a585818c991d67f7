-- ===== src/Procs/States.antt =====
-- proc.rs: states are told apart by their codes.
use web_os.Prelude.{ℕ, ◌≡◌, ◌∙◌, sym, ap, refl, true, arith, ◌==◌, if◌then◌else◌}
use web_os.Procs.{
  ProcState, unused, used, sleeping, stopped, runnable, running, zombie, state_code, same_state,
}

abbrev decoded : ℕ → ProcState
decoded n =
    if n == 0
    then unused
    else if n == 1
    then used
    else if n == 2
    then sleeping
    else if n == 3
    then stopped
    else if n == 4
    then runnable
    else if n == 5
    then running
    else zombie

decoded_code : (a : ProcState) → decoded (state_code a) ≡ a
decoded_code unused = refl
decoded_code used = refl
decoded_code sleeping = refl
decoded_code stopped = refl
decoded_code runnable = refl
decoded_code running = refl
decoded_code zombie = refl

pub same_state-eq : (a b : ProcState) → same_state a b ≡ true → a ≡ b
same_state-eq a b h = sym (decoded_code a) ∙ ap decoded (code h) ∙ decoded_code b
  where
    code : same_state a b ≡ true → state_code a ≡ state_code b
    code e = ground (arith, e)

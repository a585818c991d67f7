-- ===== src/Console/Stuck.antt =====
-- console.rs: a control-D hands over its line but leaves `line_start` where it was, so the line can be
-- taken back behind the reader. What the keyboard does from there.
use web_os.Prelude.{ℕ, ◌^◌, ◌<◌, ◌≡◌, refl, List, arith}
use web_os.Console.{Cons}
use web_os.Console.Keys.{type_all}
use web_os.Console.Reached.{IsValid}
use web_os.Console.Valid.{Satisfies, IsKept}
use web_os.Console.Preserved.{type_all-Satisfies}

abbrev Behind : (r0 w0 r w e line_start : ℕ) → Type 0
Behind r0 w0 r w e line_start = (e < r) × (r ≡ r0) × (w ≡ w0) × (r < 2 ^ 63)

Behind-IsKept : (r0 w0 : ℕ) → IsKept (Behind r0 w0)
Behind-IsKept r0 w0 = record {
  back = λ r w e line_start h other. (omega (arith, h), h.1, h.2, h.3);
  add = λ r w e line_start h room. absurd (omega (arith, h, room));
  submit = λ r w e line_start h room. absurd (omega (arith, h, room));
  submit_line = λ r w e line_start h room. absurd (omega (arith, h, room));
}

stuck_start : (c : Cons) → IsValid c → c.r < 2 ^ 63 → c.e < c.r → Satisfies (Behind c.r c.w) c
stuck_start c h bound behind = record {
  whole = h.whole;
  indices = (behind, refl, refl, bound);
  past = h.past;
}

pub type_all_behind :
    (pgid : ℕ) (xs : List ℕ) (c : Cons)
    → IsValid c
    → c.r < 2 ^ 63
    → c.e < c.r
    → ((type_all pgid xs c).r ≡ c.r)
      × ((type_all pgid xs c).w ≡ c.w)
      × ((type_all pgid xs c).e < c.r)
type_all_behind pgid xs c h bound behind =
    let h' =
      type_all-Satisfies (Behind c.r c.w) (Behind-IsKept c.r c.w) pgid xs c
        (stuck_start c h bound behind) in
    (h'.indices.1, h'.indices.2, omega (arith, h'.indices))

-- ===== src/Log/Keeps.antt =====
-- log.rs: what `commit` leaves of the log and of the header on disk, on any power.
use mathlib.Core.Path.{subst}
use web_os.Prelude.{
  ◌<◌, ◌≡◌, ◌∙◌, sym, ap, some, Option-cases, Bool-cases, inl, inr, false, arith, get_or, ltb,
}
use web_os.BlockStore.{Machine}
use web_os.Log.{
  Log, decode, commit, commit_head, write_head, write_log, install_trans, crash_if_armed, cleared,
}
use web_os.Log.Install.{serve_self}

abbrev pub Emptied : Log → Machine → Type 0
Emptied l m = 0 < m.power → (decode (m.disk l.start)).n ≡ 0

head_cleared : (l : Log) (t : Machine) → Emptied l (write_head (cleared l) t)
head_cleared l t more = ap (λ w. get_or w 0 0) (serve_self t.power t.disk l.start _ (omega arith))

commit_head_keeps :
    (l : Log) (m : Machine) {l' : Log} {m' : Machine}
    → commit_head l m ≡ some (l', m')
    → (cleared l ≡ l') × Emptied l m'
unfolding commit_head
commit_head_keeps l m {l'} {m'} e =
    elim (Option-cases (install_trans l false (crash_if_armed (write_head l m)))) [
      | inl failed ↦ absurd (ground (arith, failed))
      | inr (t, ran) ↦
          (let parts : (cleared l ≡ l') × (write_head (cleared l) t ≡ m') = ground (arith, ran) in
            (parts.0, subst (Emptied l) parts.1 (head_cleared l t)))
    ]

cleared_zero : (l : Log) → l.lh.n ≡ 0 → cleared l ≡ l
cleared_zero l e = λ i. record l { lh = record (l.lh) { n = sym e i } }

pub commit_keeps :
    (l : Log) (m : Machine) {l' : Log} {m' : Machine}
    → Emptied l m
    → commit l m ≡ some (l', m')
    → (cleared l ≡ l') × Emptied l m'
unfolding commit
commit_keeps l m {l'} {m'} clean e = elim (Bool-cases (ltb 0 l.lh.n)) [
  | inl busy ↦ elim (Option-cases (write_log l m)) [
    | inl failed ↦ absurd (ground (arith, failed, busy))
    | inr (t, ran) ↦ commit_head_keeps l t {l' = l'} {m' = m'} (ground (arith, ran, busy))
  ]
  | inr idle ↦
      (let parts : (l ≡ l') × (m ≡ m') = ground (arith, idle) in
        (cleared_zero l (ground (arith, idle)) ∙ parts.0, subst (Emptied l) parts.1 clean))
]

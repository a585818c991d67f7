-- ===== src/Log/Crash.antt =====
-- log.rs, `commit`: what a crash at any of its block writes leaves behind a restart.
use mathlib.Core.Path.{subst}
use native.Mathlib.Decide.{dec_lt, ℕ_discrete}
use web_os.Prelude.{
  ℕ, ◌+◌, ◌-◌, ◌≤◌, ◌<◌, ◌≡◌, ◌≢◌, inl, inr, refl, ◌∙◌, sym, ap, some, true, false, ◌&&◌,
  Bool-cases, List, [], ◌∷◌, arith, length, elem, get_or, update_ne, ltb, if◌then◌else◌,
}
use web_os.BlockStore.{Block, Machine, LogCrashStage, unarmed, after_head_write}
use web_os.Log.{
  Log, log_size, decode, encode, write_head, install_trans, write_log, cleared, crash_if_armed,
  commit_head, commit, fired,
}
use web_os.Log.Install.{
  IsHome, installed, installed_other, installed_entries, Logged, Installs, install_from_lem,
  serve_ne, serve_self, serve_dead,
}
use web_os.Log.Copy.{Apart, Copies, write_log_from_lem}
use web_os.Log.Recovery.{
  entries, IsLaidOut, restored, decode-encode, elem_log, length-entries, IsLaidOut-zero,
  restored_zero,
}

-- The home blocks that the transaction leaves: all of its blocks if the header write was served,
-- none of them if not.
abbrev pub all_or_nothing : Log → Machine → ℕ → Block
all_or_nothing l m x = if ltb l.lh.n m.power && elem x (entries l.lh) then m.view x else m.disk x

fired_zero : (stage : LogCrashStage) (q : ℕ) → q ≡ 0 → fired stage q ≡ 0
fired_zero unarmed q e = e
fired_zero after_head_write q e = refl

-- Two disks that agree on the log blocks hold the same log.
Logged-same :
    (start size tail : ℕ) (bs : List ℕ) (v w u : ℕ → Block)
    → tail + length bs < size
    → ((x : ℕ) → start < x → x < start + size → w x ≡ v x)
    → Logged start tail bs v u
    → Logged start tail bs w u
Logged-same start size tail [] v w u fits same h = tt
Logged-same start size tail (b ∷ bs) v w u fits same h = (
  same (start + tail + 1) (omega arith) (omega arith) ∙ h.0,
  Logged-same start size (tail + 1) bs v w u (omega arith) same h.1,
)

module _ (l : Log) (m : Machine) (ok' : IsLaidOut l.start l.size l.lh)
    (array : length l.lh.block ≡ log_size) (clean : (decode (m.disk l.start)).n ≡ 0) where
  pub copy : Copies l.start l.size 0 l.lh.n l.lh.block m
  copy =
      write_log_from_lem l.start l.size 0 l.lh.n l.lh.block m ok'.indexed (omega (arith, ok'.fits))
        ok'.homes

  pub install :
      Installs l.start 0 false l.lh.n l.lh.block (crash_if_armed (write_head l copy.after))
  install =
      install_from_lem l.start 0 false l.lh.n l.lh.block (crash_if_armed (write_head l copy.after))
        ok'.indexed

  abbrev pub final : Machine
  final = write_head (cleared l) install.after

  pub commit_runs : 0 < l.lh.n → commit l m ≡ some (cleared l, final)
  unfolding commit commit_head write_log install_trans
  commit_runs busy = ground (arith, copy.runs, install.runs)

  abbrev pub armed : Machine
  armed = crash_if_armed (write_head l copy.after)

  -- Outside the entries and the header the installation and the header writes change nothing.
  off_entries :
      (x : ℕ)
      → x ≢ l.start
      → elem x (entries l.lh) ≡ false
      → install.after.disk x ≡ copy.after.disk x
  off_entries x ne e = install.other x e ∙ serve_ne copy.after.power copy.after.disk l.start _ x ne

  pub off_home :
      (x : ℕ)
      → IsHome l.start l.size x
      → elem x (entries l.lh) ≡ false
      → install.after.disk x ≡ m.disk x
  off_home x h e = off_entries x (omega (arith, ok'.fits)) e ∙ copy.disk x (inl h)

  head_off : elem l.start (entries l.lh) ≡ false
  head_off =
      elem_log l.start l.size (entries l.lh) l.start ok'.homes (omega arith)
        (omega (arith, ok'.fits))

  -- Cut off before the header write: nothing but log blocks has changed.
  cut_disk : m.power ≤ l.lh.n → (x : ℕ) → Apart l.start l.size 0 x → final.disk x ≡ m.disk x
  cut_disk short x apart =
      serve_dead install.after.power install.after.disk l.start _ x
        (omega (arith, install.left, nothing))
      ∙ ap (λ d. d x) (install.dead nothing)
      ∙ serve_dead copy.after.power copy.after.disk l.start _ x (omega (arith, copy.left))
      ∙ copy.disk x apart
    where
      nothing : fired copy.after.crash_stage (copy.after.power - 1) ≡ 0
      nothing = fired_zero copy.after.crash_stage (copy.after.power - 1) (omega (arith, copy.left))

  -- The header write was served, and the power ended before the header was cleared.
  landed_head : l.lh.n < m.power → install.after.power ≡ 0 → decode (final.disk l.start) ≡ l.lh
  landed_head landed cut =
      ap decode (
        serve_dead install.after.power install.after.disk l.start _ l.start cut
        ∙ install.other l.start head_off
        ∙ serve_self copy.after.power copy.after.disk l.start _ (omega (arith, copy.left)))
      ∙ decode-encode l.lh (copy.after.view l.start) array

  landed_log :
      l.lh.n < m.power → install.after.power ≡ 0 → Logged l.start 0 (entries l.lh) final.disk m.view
  landed_log landed cut =
      Logged-same l.start l.size 0 (entries l.lh) copy.after.disk final.disk m.view
        (omega (arith, length-entries l.start l.size l.lh ok', ok'.fits))
        (λ x lo hi.
          serve_dead install.after.power install.after.disk l.start _ x cut
          ∙ off_entries x (omega arith)
              (elem_log l.start l.size (entries l.lh) x ok'.homes (omega arith) hi))
        (copy.stored (omega arith))

  landed_restored :
      l.lh.n < m.power
      → install.after.power ≡ 0
      → (x : ℕ) → IsHome l.start l.size x
      → restored l.start final.disk x ≡ (if elem x (entries l.lh) then m.view x else m.disk x)
  landed_restored landed cut x h = elim (Bool-cases (elem x (entries l.lh))) [
    | inl inside ↦ rw inside (
        ap (λ lh. installed l.start 0 (entries lh) final.disk x) (landed_head landed cut)
        ∙ installed_entries l.start l.size 0 (entries l.lh) final.disk m.view ok'.homes
            (omega (arith, length-entries l.start l.size l.lh ok', ok'.fits))
            (landed_log landed cut) x inside)
    | inr outside ↦ rw outside (
        ap (λ lh. installed l.start 0 (entries lh) final.disk x) (landed_head landed cut)
        ∙ installed_other l.start 0 (entries l.lh) final.disk x outside
        ∙ serve_dead install.after.power install.after.disk l.start _ x cut
        ∙ off_home x h outside)
  ]

  -- The installation takes what the cache showed.
  armed_entries :
      (x : ℕ)
      → elem x (entries l.lh) ≡ true
      → installed l.start 0 (entries l.lh) armed.view x ≡ m.view x
  armed_entries x inside =
      installed_entries l.start l.size 0 (entries l.lh) armed.view m.view ok'.homes
        (omega (arith, length-entries l.start l.size l.lh ok', ok'.fits))
        (Logged-same l.start l.size 0 (entries l.lh) copy.after.view armed.view m.view
          (omega (arith, length-entries l.start l.size l.lh ok', ok'.fits))
          (λ y lo hi. update_ne copy.after.view _ (omega arith)) copy.copied)
        x inside

  pub done_entries :
      0 < install.after.power
      → (x : ℕ) → elem x (entries l.lh) ≡ true
      → install.after.disk x ≡ m.view x
  done_entries more x inside =
      install.entries (omega (arith, install.left)) x inside
      ∙ ap (λ v. v x) install.shows
      ∙ armed_entries x inside

  pub final_head : IsLaidOut l.start l.size (decode (final.disk l.start))
  final_head = elim (dec_lt l.lh.n m.power) [
    | no short ↦
        empty (ap (λ w. get_or w 0 0) (cut_disk (omega arith) l.start (inr (omega arith))) ∙ clean)
    | yes landed ↦ elim (ℕ_discrete install.after.power 0) [
      | yes cut ↦ subst (λ lh. IsLaidOut l.start l.size lh) (sym (landed_head landed cut)) ok'
      | no more ↦ empty (ap (λ w. get_or w 0 0) (served (omega arith)))
    ]
  ]
    where
      empty :
          (decode (final.disk l.start)).n ≡ 0
          → IsLaidOut l.start l.size (decode (final.disk l.start))
      empty e =
          IsLaidOut-zero l.start l.size (decode (final.disk l.start)) e (omega (arith, ok'.fits))

      served :
          0 < install.after.power
          → final.disk l.start ≡ encode (cleared l).lh (install.after.view l.start)
      served more = serve_self install.after.power install.after.disk l.start _ more

  done_restored :
      l.lh.n < m.power
      → 0 < install.after.power
      → (x : ℕ) → IsHome l.start l.size x
      → restored l.start final.disk x ≡ (if elem x (entries l.lh) then m.view x else m.disk x)
  done_restored landed more x h =
      restored_zero l.start final.disk x
        (ap (λ w. get_or w 0 0) (serve_self install.after.power install.after.disk l.start _ more))
      ∙ serve_ne install.after.power install.after.disk l.start _ x (omega (arith, ok'.fits))
      ∙ elim (Bool-cases (elem x (entries l.lh))) [
        | inl inside ↦ done_entries more x inside ∙ rw inside refl
        | inr outside ↦ off_home x h outside ∙ rw outside refl
      ]

  pub final_restored :
      (x : ℕ) → IsHome l.start l.size x → restored l.start final.disk x ≡ all_or_nothing l m x
  final_restored x h = elim (dec_lt l.lh.n m.power) [
    | no short ↦
        (let before = cut_disk (omega arith) in
          let off : ltb l.lh.n m.power ≡ false = ground arith in
          restored_zero l.start final.disk x
            (ap (λ w. get_or w 0 0) (before l.start (inr (omega arith))) ∙ clean)
          ∙ before x (inl h)
          ∙ rw off refl)
    | yes landed ↦
        (let on : ltb l.lh.n m.power ≡ true = ground arith in
          elim (ℕ_discrete install.after.power 0) [
            | yes cut ↦ landed_restored landed cut x h ∙ rw on refl
            | no more ↦ done_restored landed (omega arith) x h ∙ rw on refl
          ])
  ]

  -- What a process reads of a home block does not change.
  pub final_view : (x : ℕ) → IsHome l.start l.size x → final.view x ≡ m.view x
  final_view x h =
      update_ne install.after.view _ (omega (arith, ok'.fits))
      ∙ ap (λ v. v x) install.shows
      ∙ elim (Bool-cases (elem x (entries l.lh))) [
        | inl inside ↦ armed_entries x inside
        | inr outside ↦
            installed_other l.start 0 (entries l.lh) armed.view x outside
            ∙ update_ne copy.after.view _ (omega (arith, ok'.fits))
            ∙ copy.shows x (inl h)
      ]

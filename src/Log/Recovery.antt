-- ===== src/Log/Recovery.antt =====
-- log.rs, `recover`: what a restart makes of a disk, and of one that a cut-off recovery left.
use mathlib.Core.Path.{subst}
use native.Mathlib.Decide.{dec_lt}
use web_os.Prelude.{
  ℕ, zero, suc, ◌+◌, ◌≤◌, ◌<◌, ◌≡◌, ◌≢◌, inl, inr, refl, ◌∙◌, sym, ap, Option, none, some, true,
  false, Bool-cases, List, [], ◌∷◌, ◌++◌, All, arith, length, length-take_le, take, drop, elem,
  get_or,
}
use web_os.BlockStore.{Block, Machine, boot}
use web_os.Log.{
  Log, LogHeader, log_size, decode, encode, read_head, write_head, install_trans, cleared,
  note_recovery, recover,
}
use web_os.Log.Install.{
  IsHome, installed, installed_other, installed_agree, Installs, serve_dead, install_from_lem,
  serve_ne, serve_self,
}

-- The blocks that a header names.
abbrev pub entries : LogHeader → List ℕ
entries lh = take lh.n lh.block

-- A header whose log blocks fit into the log and whose entries lie outside it.
pub record IsLaidOut (start size : ℕ) (lh : LogHeader) : Type 0 where
  pub indexed : lh.n ≤ length lh.block
  pub fits : lh.n < size
  pub homes : All (IsHome start size) (entries lh)

-- What recovery makes of a disk.
abbrev pub restored : ℕ → (ℕ → Block) → ℕ → Block
restored start d = installed start 0 (entries (decode (d start))) d

pub take-append_len {ℓ} :
    {A : Type ℓ} (n : ℕ) (xs ys : List A) → length xs ≡ n → take n (xs ++ ys) ≡ xs
take-append_len zero [] ys h = refl
take-append_len zero (x ∷ xs) ys h = absurd (omega arith)
take-append_len (suc n) [] ys h = absurd (omega arith)
take-append_len (suc n) (x ∷ xs) ys h = ap (λ r. x ∷ r) (take-append_len n xs ys (omega arith))

pub decode-encode :
    (lh : LogHeader) (words : Block) → length lh.block ≡ log_size → decode (encode lh words) ≡ lh
decode-encode lh words h = λ i. record {
  n = lh.n;
  block = take-append_len log_size lh.block (drop (suc log_size) words) h i;
}

pub elem-IsHome :
    (start size : ℕ) (bs : List ℕ) (x : ℕ)
    → All (IsHome start size) bs
    → elem x bs ≡ true
    → IsHome start size x
elem-IsHome start size [] x homes e = cc
elem-IsHome start size (b ∷ bs) x homes e = elim (Bool-cases (elem x bs)) [
  | inl later ↦ elem-IsHome start size bs x homes.1 later
  | inr last ↦ (let at : x ≡ b = ground (arith, e, last) in rw at homes.0)
]

-- The header and the log blocks are no entries.
pub elem_log :
    (start size : ℕ) (bs : List ℕ) (x : ℕ)
    → All (IsHome start size) bs
    → start ≤ x
    → x < start + size
    → elem x bs ≡ false
elem_log start size bs x homes lo hi = elim (Bool-cases (elem x bs)) [
  | inl e ↦ absurd (let home = elem-IsHome start size bs x homes e in omega arith)
  | inr e ↦ e
]

pub length-entries :
    (start size : ℕ) (lh : LogHeader) → IsLaidOut start size lh → length (entries lh) ≡ lh.n
length-entries start size lh ok' = length-take_le lh.n lh.block ok'.indexed

pub entries_zero : (lh : LogHeader) → lh.n ≡ 0 → entries lh ≡ []
entries_zero lh e = rw e refl

pub IsLaidOut-zero :
    (start size : ℕ) (lh : LogHeader) → lh.n ≡ 0 → 0 < size → IsLaidOut start size lh
IsLaidOut-zero start size lh e pos = record {
  indexed = omega arith;
  fits = omega arith;
  homes = rw (entries_zero lh e) tt;
}

pub restored_zero :
    (start : ℕ) (d : ℕ → Block) (x : ℕ) → (decode (d start)).n ≡ 0 → restored start d x ≡ d x
restored_zero start d x e =
    rw (entries_zero (decode (d start)) e) (installed_other start 0 [] d x refl)

-- `recover` after a restart on the disk `d`, with any power.
pub record Recovers (l : Log) (d : ℕ → Block) (power : ℕ) : Type 0 where
  pub log : Log
  pub after : Machine
  pub runs : recover l (boot power d) ≡ some (log, after)
  pub emptied : log.lh.n ≡ 0
  -- With power for the entries, the home blocks are those of the restored disk.
  pub result :
      (decode (d l.start)).n ≤ power
      → (x : ℕ) → IsHome l.start l.size x
      → after.disk x ≡ restored l.start d x
  -- With power for the header too, the log on disk is empty, else its header is as it was.
  pub clean : (decode (d l.start)).n < power → (decode (after.disk l.start)).n ≡ 0
  pub kept : power ≤ (decode (d l.start)).n → after.disk l.start ≡ d l.start
  pub other :
      (x : ℕ) → x ≢ l.start → elem x (entries (decode (d l.start))) ≡ false → after.disk x ≡ d x

module _ (l : Log) (d : ℕ → Block) (power : ℕ)
    (ok' : IsLaidOut l.start l.size (decode (d l.start))) where
  copy :
      Installs l.start 0 true
        (decode (d l.start)).n
        (decode (d l.start)).block
        (note_recovery (read_head l (boot power d)) (boot power d))
  copy =
      install_from_lem l.start 0 true (decode (d l.start)).n (decode (d l.start)).block
        (note_recovery (read_head l (boot power d)) (boot power d)) ok'.indexed

  pub recover_lem : Recovers l d power
  unfolding recover install_trans
  recover_lem = record {
    log = cleared (read_head l (boot power d));
    after = write_head (cleared (read_head l (boot power d))) copy.after;
    runs = rw (copy.runs, recover) refl;
    emptied = refl;
    result = λ p x home.
        serve_ne copy.after.power copy.after.disk l.start _ x (omega (arith, ok'.fits))
        ∙ settled p x;
    clean = λ p.
        ap (λ w. get_or w 0 0)
          (serve_self copy.after.power copy.after.disk l.start _ (omega (arith, copy.left)));
    kept = λ p.
        serve_dead copy.after.power copy.after.disk l.start _ l.start (omega (arith, copy.left))
        ∙ copy.other l.start (
            elem_log l.start l.size (entries (decode (d l.start))) l.start ok'.homes (omega arith)
              (omega (arith, ok'.fits)));
    other = λ x ne e. serve_ne copy.after.power copy.after.disk l.start _ x ne ∙ copy.other x e;
  }
    where
      settled : (decode (d l.start)).n ≤ power → (x : ℕ) → copy.after.disk x ≡ restored l.start d x
      settled p x = elim (Bool-cases (elem x (entries (decode (d l.start))))) [
        | inl e ↦ copy.entries p x e ∙ ap (λ v. v x) copy.shows
        | inr e ↦
            copy.other x e ∙ sym (installed_other l.start 0 (entries (decode (d l.start))) d x e)
      ]

-- A restart on the disk `d` recovers without a panic, and gives the home blocks the contents `w`.
pub record RecoversTo (l : Log) (d : ℕ → Block) (power : ℕ) (w : ℕ → Block) : Type 0 where
  pub log : Log
  pub after : Machine
  pub runs : recover l (boot power d) ≡ some (log, after)
  pub home : (x : ℕ) → IsHome l.start l.size x → after.disk x ≡ w x

some_pair {ℓ κ} :
    {A : Type ℓ} {B : Type κ} {a c : A} {b d : B}
    → ◌≡◌ {A = Option (A × B)} (some (a, b)) (some (c, d))
    → b ≡ d
some_pair {b} e = ap (λ o. elim o [ none ↦ b | some (a', b') ↦ b' ]) e

-- A disk whose header and log blocks are those of `d`, and whose other blocks differ from `d` at
-- most in the entries, is restored to the same blocks.
pub restored_agree :
    (start size : ℕ) (d e : ℕ → Block)
    → IsLaidOut start size (decode (d start))
    → e start ≡ d start
    → ((x : ℕ) → x ≢ start → elem x (entries (decode (d start))) ≡ false → e x ≡ d x)
    → (x : ℕ) → IsHome start size x
    → restored start e x ≡ restored start d x
restored_agree start size d e ok' header other x home = rw header (elim (Bool-cases (elem x bs)) [
  | inl inside ↦
      installed_agree start size 0 bs e d ok'.homes
        (omega (arith, length-entries start size (decode (d start)) ok', ok'.fits))
        (λ y lo hi. other y (omega arith) (elem_log start size bs y ok'.homes (omega arith) hi)) x
        inside
  | inr outside ↦
      installed_other start 0 bs e x outside
      ∙ other x (omega (arith, ok'.fits)) outside
      ∙ sym (installed_other start 0 bs d x outside)
])
  where
    bs : List ℕ
    bs = entries (decode (d start))

-- Recovery may itself be cut off after any number of block writes: the next recovery, if it is not
-- cut off, still gives every home block what the first one would have given it.
pub recover_again :
    (l : Log) (d : ℕ → Block) (power later : ℕ) (l' : Log) (m' : Machine)
    → IsLaidOut l.start l.size (decode (d l.start))
    → recover l (boot power d) ≡ some (l', m')
    → (decode (d l.start)).n ≤ later
    → RecoversTo l m'.disk later (restored l.start d)
recover_again l d power later l' m' ok' ran enough =
    subst (λ m. RecoversTo l m.disk later (restored l.start d)) (some_pair (sym first.runs ∙ ran))
      (elim (dec_lt (decode (d l.start)).n power) [
        | yes done ↦ from_empty done (
            recover_lem l first.after.disk later (
              IsLaidOut-zero l.start l.size (decode (first.after.disk l.start)) (first.clean done)
                (omega (arith, ok'.fits))))
        | no cut ↦ from_full (first.kept (omega arith)) (
            recover_lem l first.after.disk later (
              subst (λ w. IsLaidOut l.start l.size (decode w)) (sym (first.kept (omega arith)))
                ok'))
      ])
  where
    first : Recovers l d power
    first = recover_lem l d power ok'

    from_empty :
        (decode (d l.start)).n < power
        → Recovers l first.after.disk later
        → RecoversTo l first.after.disk later (restored l.start d)
    from_empty done second = record {
      log = second.log;
      after = second.after;
      runs = second.runs;
      home = λ x h.
          second.result (omega (arith, first.clean done)) x h
          ∙ restored_zero l.start first.after.disk x (first.clean done)
          ∙ first.result (omega arith) x h;
    }

    from_full :
        first.after.disk l.start ≡ d l.start
        → Recovers l first.after.disk later
        → RecoversTo l first.after.disk later (restored l.start d)
    from_full header second = record {
      log = second.log;
      after = second.after;
      runs = second.runs;
      home = λ x h.
          second.result (rw header enough) x h
          ∙ restored_agree l.start l.size d first.after.disk ok' header first.other x h;
    }

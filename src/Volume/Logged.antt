-- ===== src/Volume/Logged.antt =====
-- fs.rs with log.rs: a logged change shows its contents, and fits while the log has room.
use web_os.Prelude.{
  ℕ, suc, ◌+◌, ◌≤◌, ◌<◌, ◌≡◌, refl, Bool-cases, inl, inr, Option, none, some, true, false, update,
  arith, elem, take, set,
}
use web_os.BlockStore.{Block, Machine, modify, pin}
use web_os.Log.{Log, log_size}
use web_os.Log.Ops.{write, size_less_one}
use web_os.Volume.{Volume, view, log_write}

-- `k` more blocks may be added, and a transaction runs.
pub record HasRoom (v : Volume) (k : ℕ) : Type 0 where
  pub running : 0 < v.log.outstanding
  pub below_limit : v.log.lh.n + k ≤ log_size
  pub below_size : v.log.lh.n + k ≤ size_less_one v.log.size

-- `v'` is `v` with the contents `x` in block `b`, and room for `k` more blocks.
pub record IsLogged (v : Volume) (b : ℕ) (x : Block) (k : ℕ) (v' : Volume) : Type 0 where
  pub shows : (c : ℕ) → view v' c ≡ update (view v) b x c
  pub room : HasRoom v' k

abbrev grown : Log → ℕ → Log
grown l b = record l { lh = record { n = l.lh.n + 1; block = set l.lh.block l.lh.n b } }

write_known :
    (l : Log) (m : Machine) (b k : ℕ)
    → 0 < l.outstanding
    → l.lh.n + suc k ≤ log_size
    → l.lh.n + suc k ≤ size_less_one l.size
    → elem b (take l.lh.n l.lh.block) ≡ true
    → write l m b ≡ some (l, m)
unfolding write
write_known l m b k run limit size e = ground (arith, e)

write_new :
    (l : Log) (m : Machine) (b k : ℕ)
    → 0 < l.outstanding
    → l.lh.n + suc k ≤ log_size
    → l.lh.n + suc k ≤ size_less_one l.size
    → elem b (take l.lh.n l.lh.block) ≡ false
    → write l m b ≡ some (grown l b, pin m b)
unfolding write
write_new l m b k run limit size e = ground (arith, e)

volume_of : Option (Log × Machine) → Option Volume
volume_of none = none
volume_of (some (l, m)) = some (record { log = l; machine = m })

log_write-volume_of :
    (v : Volume) (b : ℕ) (x : Block) (r : Option (Log × Machine))
    → write v.log (modify v.machine b x) b ≡ r
    → log_write v b x ≡ volume_of r
unfolding log_write volume_of
log_write-volume_of v b x none e = ground (arith, e)
log_write-volume_of v b x (some (l, m)) e = ground (arith, e)

pub log_write_lem :
    (v : Volume) (b : ℕ) (x : Block) (k : ℕ)
    → HasRoom v (suc k)
    → (v' : Volume) × (log_write v b x ≡ some v') × IsLogged v b x k v'
unfolding volume_of
log_write_lem v b x k h = elim (Bool-cases (elem b (take v.log.lh.n v.log.lh.block))) [
  | inl e ↦ (
    record v { machine = modify v.machine b x },
    log_write-volume_of v b x _
        (write_known v.log (modify v.machine b x) b k h.running h.below_limit h.below_size e),
    record {
      shows = λ c. refl;
      room = record {
        running = h.running;
        below_limit = omega (arith, h.below_limit);
        below_size = omega (arith, h.below_size);
      };
    },
  )
  | inr e ↦ (
    record { log = grown v.log b; machine = pin (modify v.machine b x) b },
    log_write-volume_of v b x _
        (write_new v.log (modify v.machine b x) b k h.running h.below_limit h.below_size e),
    record {
      shows = λ c. refl;
      room = record {
        running = h.running;
        below_limit = omega (arith, h.below_limit);
        below_size = omega (arith, h.below_size);
      };
    },
  )
]

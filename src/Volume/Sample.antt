-- ===== src/Volume/Sample.antt =====
-- A volume of 60 blocks, of which the first 46 are in use, for the tests.
use mathlib.Core.Path.{subst}
use web_os.Prelude.{
  ℕ, ◌<◌, ◌≡◌, refl, sym, false, true, [], ◌∷◌, arith, length, replicate, if◌then◌else◌, ◌==◌,
}
use web_os.BlockStore.{Block, Machine, unarmed}
use web_os.Log.{Log}
use web_os.Volume.{Volume, SuperBlock, bblock, used, IsMapped}
use web_os.Volume.Logged.{HasRoom}

abbrev pub small : SuperBlock
small = record {
  magic = 0x10203040;
  size = 60;
  nblocks = 14;
  ninodes = 200;
  nlog = 30;
  logstart = 2;
  inodestart = 32;
  bmapstart = 45;
}

-- The bits of blocks 0 to 45.
abbrev pub map_words : Block
map_words = 0xffff_ffff ∷ 0x3fff ∷ replicate 254 0

abbrev pub machine : Machine
machine = record {
  disk = λ b. [];
  view = λ b. if b == 45 then map_words else replicate 256 0;
  pins = λ b. 0;
  power = 0;
  crash_stage = unarmed;
  recovered = false;
}

abbrev pub log : Log
log = record {
  start = 2;
  size = 31;
  outstanding = 1;
  committing = false;
  lh = record { n = 0; block = replicate 30 0 };
}

abbrev pub volume : Volume
volume = record { log = log; machine = machine }

pub volume-HasRoom : HasRoom volume 9
volume-HasRoom = record {
  running = omega arith;
  below_limit = omega arith;
  below_size = omega arith;
}

pub one_map : (x : ℕ) → x < 60 → bblock small x ≡ 45
one_map x h = omega arith

pub volume-IsMapped : IsMapped small volume
volume-IsMapped = record {
  whole = λ x h. subst (λ b. length (machine.view b) ≡ 256) (sym (one_map x h)) refl;
  within = λ x h. omega (arith, one_map x h);
  reserved = λ x h. subst (λ b. used small volume b ≡ true) (sym (one_map x h)) refl;
}

-- ===== src/Volume/Tests.antt =====
-- fs.rs: the theorems on the bit map at a volume of 60 blocks, of which the first 46 are in use.
use web_os.Prelude.{ℕ, ◌<◌, ◌≡◌, ◌⊎◌, refl, none, some, true, arith, replicate, set}
use web_os.BlockStore.{modify, pin}
use web_os.Log.Ops.{write}
use web_os.Volume.{
  Volume, balloc, balloc_from, claim, find_free, mark, bfree, used, log_write, bzero,
}
use web_os.Volume.Logged.{HasRoom}
use web_os.Volume.Sample.{small, map_words, machine, log, volume, volume-IsMapped}
use web_os.Volume.Alloc.{IsAllocated, balloc_lem}
use web_os.Volume.Free.{bfree-balloc}

some_room : HasRoom volume 3
some_room = record { running = omega arith; below_limit = omega arith; below_size = omega arith }

first_free : find_free 8192 0 map_words 0 60 ≡ some 46
unfolding find_free
first_free = refl

balloc_lem_example :
    ((balloc small volume ≡ none) × ((x : ℕ) → x < 60 → used small volume x ≡ true))
    ⊎ ((x : ℕ) × (v' : Volume) × (balloc small volume ≡ some (x, v'))
        × IsAllocated small volume x 1 v')
balloc_lem_example = balloc_lem small volume 1 volume-IsMapped some_room

-- What balloc leaves: block 46 is marked, zeroed and logged.
abbrev allocated : Volume
allocated = record {
  log = record log { lh = record { n = 2; block = set (set (replicate 30 0) 0 45) 1 46 } };
  machine = pin (modify (pin (modify machine 45 (mark map_words 46)) 45) 46 (replicate 256 0)) 46;
}

run-balloc : balloc small volume ≡ some (46, allocated)
unfolding balloc balloc_from claim find_free bzero log_write write
run-balloc = refl

bfree-balloc_example :
    (v'' : Volume) × (bfree small allocated 46 ≡ some v'')
    × ((y : ℕ) → y < 60 → used small v'' y ≡ used small volume y)
    × (bfree small v'' 46 ≡ none)
bfree-balloc_example = bfree-balloc small volume allocated 46 volume-IsMapped some_room run-balloc

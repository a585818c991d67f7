-- ===== src/Inode/Layout.antt =====
-- fs.rs: which block of the volume holds a block of a file.
use web_os.Prelude.{
  ℕ, zero, suc, ◌+◌, ◌-◌, ◌/◌, ◌%◌, ◌<◌, ◌≤◌, ◌≡◌, ◌≢◌, refl, sym, ap, ◌∙◌, arith, get_or,
  replicate, ltb, ◌==◌, if◌then◌else◌,
}
use web_os.Volume.{Volume, view, block_words}
use web_os.Inode.{IData, ndirect, nindirect}

-- The block that entry `i` of block `p` names; 0 says none, and so does the number 0 of a block.
pub at_entry : Volume → ℕ → ℕ → ℕ
at_entry v p i = if p == 0 then 0 else get_or (view v p) i 0

pub at_entry_zero : (v : Volume) (i : ℕ) → at_entry v 0 i ≡ 0
unfolding at_entry
at_entry_zero v i = refl

pub at_entry_there : (v : Volume) (p i : ℕ) → p ≢ 0 → at_entry v p i ≡ get_or (view v p) i 0
unfolding at_entry
at_entry_there v p i ne = ground (arith, ne)

get_or-replicate : (n i : ℕ) → get_or {A = ℕ} (replicate n 0) i 0 ≡ 0
get_or-replicate zero i = refl
get_or-replicate (suc n) zero = refl
get_or-replicate (suc n) (suc i) = get_or-replicate n i

pub zeros-get_or :
    (v : Volume) (x i : ℕ) → view v x ≡ replicate block_words 0 → get_or (view v x) i 0 ≡ 0
zeros-get_or v x i e = ap (λ b. get_or b i 0) e ∙ get_or-replicate block_words i

-- A block of zeros names what the missing block names.
pub at_entry-zeros :
    (v v' : Volume) (x old i : ℕ)
    → x ≢ 0
    → view v' x ≡ replicate block_words 0
    → old ≡ 0
    → at_entry v' x i ≡ at_entry v old i
at_entry-zeros v v' x old i ne e z =
    at_entry_there v' x i ne
    ∙ zeros-get_or v' x i e
    ∙ sym (ap (λ o. at_entry v o i) z ∙ at_entry_zero v i)

-- The layout of a file: the block that holds its block `bn`, 0 when none does. The first 11 are named
-- by the inode, the next 256 by the block of address 11, the others by the 256 blocks that the block
-- of address 12 names.
pub file_block : ℕ → IData → Volume → ℕ
file_block bn ip v =
    if ltb bn 11
    then get_or ip.addrs bn 0
    else if ltb bn 267
    then at_entry v (get_or ip.addrs 11 0) (bn - 11)
    else at_entry v (at_entry v (get_or ip.addrs 12 0) ((bn - 267) / 256)) ((bn - 267) % 256)

pub place_direct :
    (bn : ℕ) → bn < ndirect → (i : IData) (w : Volume) → file_block bn i w ≡ get_or i.addrs bn 0
unfolding file_block
place_direct bn h i w = ground arith

pub place_indirect :
    (bn : ℕ)
    → ndirect ≤ bn
    → bn - ndirect < nindirect
    → (i : IData) (w : Volume)
    → file_block bn i w ≡ at_entry w (get_or i.addrs ndirect 0) (bn - ndirect)
unfolding file_block
place_indirect bn h h' i w = ground arith

sub_sub : (bn : ℕ) → bn - 267 ≡ bn - 11 - 256
sub_sub bn = omega arith

pub place_double :
    (bn : ℕ)
    → ndirect + nindirect ≤ bn
    → (i : IData) (w : Volume)
    → file_block bn i w
      ≡ at_entry w
          (at_entry w (get_or i.addrs (ndirect + 1) 0) ((bn - ndirect - nindirect) / nindirect))
          ((bn - ndirect - nindirect) % nindirect)
unfolding file_block
place_double bn h i w = rw (sub_sub bn) (ground arith)

-- ===== src/OpenModes/Codes.antt =====
-- fcntl.rs: the numbers of the modes and the commands, read back.
use web_os.Prelude.{ℕ, ◌+◌, ◌*◌, ◌≡◌, refl, Bool, true, false, arith}
use web_os.OpenModes.{
  from_usize, FcntlCmd, cmd_from_usize, cmd_to_usize, get_fl, set_fl, get_fd, set_fd, set_cloexec,
  set_nonblock, clear_nonblock, get_lk, set_lk, invalid,
}

-- What a program passes to `open`: one of the three ways of access, and flags.
pub data Access : Type 0 where
  rdonly wronly rdwr : Access

abbrev pub bit : Bool → ℕ
bit false = 0
bit true = 1

abbrev pub access_bits : Access → ℕ
access_bits rdonly = 0
access_bits wronly = 1
access_bits rdwr = 2

abbrev pub reads : Access → Bool
reads rdonly = true
reads wronly = false
reads rdwr = true

abbrev pub writes : Access → Bool
writes rdonly = false
writes wronly = true
writes rdwr = true

abbrev pub open_bits : Access → (create trunc append cloexec nonblock : Bool) → ℕ
open_bits a create trunc append cloexec nonblock =
    access_bits a
    + bit create * 512
    + bit trunc * 1024
    + bit append * 2048
    + bit cloexec * 4096
    + bit nonblock * 8192

-- from_usize gives a file opened with one way of access and any flags exactly these flags, reading
-- unless it is write-only, and writing unless it is read-only.
pub from_usize_lem :
    (a : Access) (create trunc append cloexec nonblock : Bool)
    → from_usize (open_bits a create trunc append cloexec nonblock) ≡ record {
      read = reads a;
      write = writes a;
      truncate = trunc;
      create = create;
      append = append;
      cloexec = cloexec;
      nonblock = nonblock;
    }
unfolding from_usize
from_usize_lem rdonly create trunc append cloexec nonblock = ground arith
from_usize_lem wronly create trunc append cloexec nonblock = ground arith
from_usize_lem rdwr create trunc append cloexec nonblock = ground arith

-- Reading back the number of any command gives the command.
pub cmd_from_usize-cmd_to_usize : (c : FcntlCmd) → cmd_from_usize (cmd_to_usize c) ≡ c
unfolding cmd_from_usize cmd_to_usize
cmd_from_usize-cmd_to_usize get_fl = refl
cmd_from_usize-cmd_to_usize set_fl = refl
cmd_from_usize-cmd_to_usize get_fd = refl
cmd_from_usize-cmd_to_usize set_fd = refl
cmd_from_usize-cmd_to_usize set_cloexec = refl
cmd_from_usize-cmd_to_usize set_nonblock = refl
cmd_from_usize-cmd_to_usize clear_nonblock = refl
cmd_from_usize-cmd_to_usize get_lk = refl
cmd_from_usize-cmd_to_usize set_lk = refl
cmd_from_usize-cmd_to_usize invalid = refl

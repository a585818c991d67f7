-- ===== src/OpenModes.antt =====
-- crates/kernel/src/fcntl.rs, the modes of an open file and the commands of `fcntl`.
mod Codes
mod Tests
use web_os.Prelude.{ℕ, ◌/◌, ◌%◌, Bool, true, false, not, ◌&&◌, ◌||◌, ◌==◌, if◌then◌else◌}

-- mod omode
abbrev pub wronly : ℕ
wronly = 0x001

abbrev pub rdwr : ℕ
rdwr = 0x002

abbrev pub create_flag : ℕ
create_flag = 0x200

abbrev pub trunc_flag : ℕ
trunc_flag = 0x400

abbrev pub append_flag : ℕ
append_flag = 0x800

abbrev pub cloexec_flag : ℕ
cloexec_flag = 0x1000

abbrev pub nonblock_flag : ℕ
nonblock_flag = 0x2000

-- `bits & flag != 0` for a flag of one bit.
abbrev pub has_flag : ℕ → ℕ → Bool
has_flag bits flag = bits / flag % 2 == 1

pub record OMode : Type 0 where
  pub read : Bool
  pub write : Bool
  pub truncate : Bool
  pub create : Bool
  pub append : Bool
  pub cloexec : Bool
  pub nonblock : Bool

abbrev pub new : OMode
new = record {
  read = false;
  write = false;
  truncate = false;
  create = false;
  append = false;
  cloexec = false;
  nonblock = false;
}

abbrev pub read : OMode → Bool → OMode
read m b = record m { read = b }

abbrev pub write : OMode → Bool → OMode
write m b = record m { write = b }

abbrev pub append : OMode → Bool → OMode
append m b = record m { append = b }

abbrev pub cloexec : OMode → Bool → OMode
cloexec m b = record m { cloexec = b }

abbrev pub nonblock : OMode → Bool → OMode
nonblock m b = record m { nonblock = b }

abbrev pub truncate : OMode → Bool → OMode
truncate m b = record m { truncate = b }

abbrev pub create : OMode → Bool → OMode
create m b = record m { create = b }

pub from_usize : ℕ → OMode
from_usize bits =
    let m = read new (not (has_flag bits wronly)) in
    let m = write m (has_flag bits wronly || has_flag bits rdwr) in
    let m = create m (has_flag bits create_flag) in
    let m = truncate m (has_flag bits trunc_flag) in
    let m = append m (has_flag bits append_flag) in
    let m = cloexec m (has_flag bits cloexec_flag) in nonblock m (has_flag bits nonblock_flag)

pub is_rdonly : OMode → Bool
is_rdonly m = m.read && not m.write

pub data FcntlCmd : Type 0 where
  get_fl set_fl get_fd set_fd set_cloexec set_nonblock clear_nonblock get_lk set_lk invalid :
      FcntlCmd

pub cmd_from_usize : ℕ → FcntlCmd
cmd_from_usize bits =
    if bits == 1
    then get_fl
    else if bits == 2
    then set_fl
    else if bits == 3
    then get_fd
    else if bits == 4
    then set_fd
    else if bits == 5
    then set_cloexec
    else if bits == 6
    then set_nonblock
    else if bits == 7
    then clear_nonblock
    else if bits == 8
    then get_lk
    else if bits == 9
    then set_lk
    else invalid

-- The discriminants; that of `Invalid` is implicit, hence 10.
pub cmd_to_usize : FcntlCmd → ℕ
cmd_to_usize get_fl = 1
cmd_to_usize set_fl = 2
cmd_to_usize get_fd = 3
cmd_to_usize set_fd = 4
cmd_to_usize set_cloexec = 5
cmd_to_usize set_nonblock = 6
cmd_to_usize clear_nonblock = 7
cmd_to_usize get_lk = 8
cmd_to_usize set_lk = 9
cmd_to_usize invalid = 10

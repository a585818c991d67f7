-- ===== src/Errors.antt =====
-- crates/kernel/src/error.rs: the errors of the kernel, their numbers in the system-call ABI, and the
-- result type that the other modules use.
pub mod Codes
mod Tests
use Prim.Native.String.{String}
use web_os.Prelude.{ℕ, suc, Bool, true, false, ◌==◌, if◌then◌else◌}

pub data Error : Type 0 where
  uncategorized : Error
  resource_busy : Error
  not_found : Error
  out_of_memory : Error
  bad_virt_addr : Error
  storage_full : Error
  too_many_links : Error
  no_such_process : Error
  would_block : Error
  no_buffer_space : Error
  no_child_processes : Error
  interrupted : Error
  bad_file_descriptor : Error
  file_descriptor_too_large : Error
  file_too_large : Error
  already_exists : Error
  is_a_directory : Error
  not_a_directory : Error
  crosses_devices : Error
  permission_denied : Error
  directory_not_empty : Error
  file_table_overflow : Error
  invalid_argument : Error
  no_such_node : Error
  broken_pipe : Error
  exec_file_format_error : Error
  argument_list_too_long : Error
  utf8_error : Error
  write_zero : Error
  not_connected : Error

-- `core::result::Result<T, Error>`.
pub data Result {ℓ} (A : Type ℓ) : Type ℓ where
  ok : A → Result A
  err : Error → Result A

infixl 5 ◌>>=◌ ◌>>◌
abbrev pub ◌>>=◌ {ℓ κ} : {A : Type ℓ} {B : Type κ} → Result A → (A → Result B) → Result B
ok a >>= f = f a
err e >>= f = err e

abbrev pub ◌>>◌ {ℓ κ} : {A : Type ℓ} {B : Type κ} → Result A → Result B → Result B
m >> k = m >>= λ _. k

-- An `isize`: `negsuc n` is -(n + 1).
pub data ℤ : Type 0 where
  pos : ℕ → ℤ
  negsuc : ℕ → ℤ

-- The discriminants of `#[repr(isize)] enum Error`. The first one is implicit, hence 0.
pub to_isize : Error → ℤ
to_isize uncategorized = pos 0
to_isize resource_busy = negsuc 1
to_isize not_found = negsuc 2
to_isize out_of_memory = negsuc 3
to_isize bad_virt_addr = negsuc 4
to_isize storage_full = negsuc 5
to_isize too_many_links = negsuc 6
to_isize no_such_process = negsuc 7
to_isize would_block = negsuc 8
to_isize no_buffer_space = negsuc 9
to_isize no_child_processes = negsuc 10
to_isize interrupted = negsuc 11
to_isize bad_file_descriptor = negsuc 12
to_isize file_descriptor_too_large = negsuc 13
to_isize file_too_large = negsuc 14
to_isize already_exists = negsuc 15
to_isize is_a_directory = negsuc 16
to_isize not_a_directory = negsuc 17
to_isize crosses_devices = negsuc 18
to_isize permission_denied = negsuc 19
to_isize directory_not_empty = negsuc 20
to_isize file_table_overflow = negsuc 21
to_isize invalid_argument = negsuc 22
to_isize no_such_node = negsuc 23
to_isize broken_pipe = negsuc 24
to_isize exec_file_format_error = negsuc 25
to_isize argument_list_too_long = negsuc 26
to_isize utf8_error = negsuc 27
to_isize write_zero = negsuc 28
to_isize not_connected = negsuc 29

-- The match on a code -(n + 1).
pub from_negative : ℕ → Error
from_negative n =
    if n == 1
    then resource_busy
    else if n == 2
    then not_found
    else if n == 3
    then out_of_memory
    else if n == 4
    then bad_virt_addr
    else if n == 5
    then storage_full
    else if n == 6
    then too_many_links
    else if n == 7
    then no_such_process
    else if n == 8
    then would_block
    else if n == 9
    then no_buffer_space
    else if n == 10
    then no_child_processes
    else if n == 11
    then interrupted
    else if n == 12
    then bad_file_descriptor
    else if n == 13
    then file_descriptor_too_large
    else if n == 14
    then file_too_large
    else if n == 15
    then already_exists
    else if n == 16
    then is_a_directory
    else if n == 17
    then not_a_directory
    else if n == 18
    then crosses_devices
    else if n == 19
    then permission_denied
    else if n == 20
    then directory_not_empty
    else if n == 21
    then file_table_overflow
    else if n == 22
    then invalid_argument
    else if n == 23
    then no_such_node
    else if n == 24
    then broken_pipe
    else if n == 25
    then exec_file_format_error
    else if n == 26
    then argument_list_too_long
    else if n == 27
    then utf8_error
    else if n == 28
    then write_zero
    else if n == 29
    then not_connected
    else uncategorized

pub from_isize : ℤ → Error
unfolding from_negative
from_isize (pos n) = uncategorized
from_isize (negsuc n) = from_negative n

pub as_str : Error → String
as_str resource_busy = "resource busy"
as_str not_found = "entry not found"
as_str out_of_memory = "out of memory"
as_str bad_virt_addr = "bad virtual address"
as_str storage_full = "no storage space"
as_str too_many_links = "too many links"
as_str no_such_process = "no such process"
as_str would_block = "operation would block"
as_str no_buffer_space = "no buffer space available"
as_str no_child_processes = "no child processes"
as_str interrupted = "operation interrupted"
as_str bad_file_descriptor = "bad file descriptor"
as_str file_descriptor_too_large = "file descriptor value too large"
as_str file_too_large = "file too large"
as_str already_exists = "entity already exists"
as_str is_a_directory = "is a directory"
as_str not_a_directory = "not a directory"
as_str crosses_devices = "cross-device link or rename"
as_str permission_denied = "permission denied"
as_str directory_not_empty = "directory not empty"
as_str file_table_overflow = "inode or file table overflow in system"
as_str invalid_argument = "invalid argument"
as_str no_such_node = "no such node or address"
as_str broken_pipe = "broken pipe"
as_str exec_file_format_error = "executable file format error"
as_str argument_list_too_long = "argument list too long"
as_str utf8_error = "slice is not utf8"
as_str write_zero = "write zero"
as_str not_connected = "not connected"
as_str uncategorized = "uncategorized error"

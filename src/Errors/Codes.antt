-- ===== src/Errors/Codes.antt =====
-- error.rs: the error numbers go through the ABI unchanged.
use web_os.Prelude.{◌≡◌, ◌≢◌, refl, sym, ◌∙◌, ap, arith}
use web_os.Errors.{
  Error, uncategorized, resource_busy, not_found, out_of_memory, bad_virt_addr, storage_full,
  too_many_links, no_such_process, would_block, no_buffer_space, no_child_processes, interrupted,
  bad_file_descriptor, file_descriptor_too_large, file_too_large, already_exists, is_a_directory,
  not_a_directory, crosses_devices, permission_denied, directory_not_empty, file_table_overflow,
  invalid_argument, no_such_node, broken_pipe, exec_file_format_error, argument_list_too_long,
  utf8_error, write_zero, not_connected, ℤ, pos, negsuc, to_isize, from_isize,
}

-- Reading back the number of an error gives the error.
pub from_isize-to_isize : (e : Error) → from_isize (to_isize e) ≡ e
unfolding from_isize to_isize
from_isize-to_isize uncategorized = refl
from_isize-to_isize resource_busy = refl
from_isize-to_isize not_found = refl
from_isize-to_isize out_of_memory = refl
from_isize-to_isize bad_virt_addr = refl
from_isize-to_isize storage_full = refl
from_isize-to_isize too_many_links = refl
from_isize-to_isize no_such_process = refl
from_isize-to_isize would_block = refl
from_isize-to_isize no_buffer_space = refl
from_isize-to_isize no_child_processes = refl
from_isize-to_isize interrupted = refl
from_isize-to_isize bad_file_descriptor = refl
from_isize-to_isize file_descriptor_too_large = refl
from_isize-to_isize file_too_large = refl
from_isize-to_isize already_exists = refl
from_isize-to_isize is_a_directory = refl
from_isize-to_isize not_a_directory = refl
from_isize-to_isize crosses_devices = refl
from_isize-to_isize permission_denied = refl
from_isize-to_isize directory_not_empty = refl
from_isize-to_isize file_table_overflow = refl
from_isize-to_isize invalid_argument = refl
from_isize-to_isize no_such_node = refl
from_isize-to_isize broken_pipe = refl
from_isize-to_isize exec_file_format_error = refl
from_isize-to_isize argument_list_too_long = refl
from_isize-to_isize utf8_error = refl
from_isize-to_isize write_zero = refl
from_isize-to_isize not_connected = refl

-- Two errors with one number are the same error.
pub to_isize_injective : (e f : Error) → to_isize e ≡ to_isize f → e ≡ f
to_isize_injective e f h = sym (from_isize-to_isize e) ∙ ap from_isize h ∙ from_isize-to_isize f

-- A number that is read as a categorised error is the number of that error.
pub to_isize-from_isize :
    (code : ℤ) → from_isize code ≢ uncategorized → to_isize (from_isize code) ≡ code
unfolding from_isize to_isize
to_isize-from_isize (pos n) h = absurd (h refl)
to_isize-from_isize (negsuc n) h = ground (arith, h)

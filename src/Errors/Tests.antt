-- ===== src/Errors/Tests.antt =====
-- error.rs: the theorems on error numbers at concrete numbers.
use web_os.Prelude.{◌≡◌, refl}
use web_os.Errors.{uncategorized, not_found, negsuc, from_isize}

from_minus_three : from_isize (negsuc 2) ≡ not_found
unfolding from_isize
from_minus_three = refl

-- -1 is the number of no error.
from_minus_one : from_isize (negsuc 0) ≡ uncategorized
unfolding from_isize
from_minus_one = refl

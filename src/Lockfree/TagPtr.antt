-- ===== src/Lockfree/TagPtr.antt =====
-- idea/lockfree/tag_ptr.h (and the copy in stack-atomic-version.hpp): a 48-bit pointer and a 16-bit
-- tag in one 64-bit word. `tag[3]` of the union is the high half-word of a little-endian word.
pub mod Packing
use Prim.Native.Nat.{bit_and}
use codelab.Base.{ℕ, ◌+◌, ◌*◌, ◌/◌, ◌%◌, ◌^◌, Bool, true, false, ◌==◌, if◌then◌else◌}

abbrev pub ptr_mask : ℕ
ptr_mask = 0xffffffffffff

-- An `int32` version is a number; storing it in a `uint16` keeps its low 16 bits.
pub store_tag : ℕ → ℕ → ℕ
store_tag value version = value % 2 ^ 48 + version % 2 ^ 16 * 2 ^ 48

pub pack_ptr : ℕ → ℕ → ℕ
pack_ptr ptr version = store_tag ptr version

pub extract_tag : ℕ → ℕ
extract_tag word = word / 2 ^ 48 % 2 ^ 16

pub get_ptr : ℕ → ℕ
get_ptr word = bit_and word ptr_mask

pub get_tag : ℕ → ℕ
get_tag word = extract_tag word

pub get_next_tag : ℕ → ℕ
get_next_tag word = bit_and (get_tag word + 1) 0xffff

pub set_tag : ℕ → ℕ → ℕ
set_tag version word = store_tag word version

-- `operator bool`.
pub is_set : ℕ → Bool
is_set word = if get_ptr word == 0 then false else true

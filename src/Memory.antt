-- ===== src/Memory.antt =====
-- The memory that the hooks read, and what they know of its layout from generated code
-- (modality-ros-hook/src/ros.rs names the bindings, the build makes them from the ROS headers).
pub mod Strings
use modality_ros.Prelude.{
  ℕ, zero, suc, ◌+◌, ◌*◌, ◌-◌, ◌^◌, String, Option, none, some, List, [], ◌∷◌, leb, ◌==◌, nat_eq,
  if◌then◌else◌,
}
use modality_ros.Prelude.Unicode.{from_utf8_lossy}

-- The byte at each address.
abbrev pub Memory : Type 0
Memory = ℕ → ℕ

-- C functions of the type support, which read the memory: the size of a sequence, and the address
-- of an item.
abbrev pub SizeFunction : Type 0
SizeFunction = Memory → ℕ → ℕ

abbrev pub GetFunction : Type 0
GetFunction = Memory → ℕ → ℕ → ℕ

-- `&[u8]`
pub record Slice : Type 0 where
  pub ptr : ℕ
  pub len : ℕ

-- `slice.get(offset..)`
unfoldable pub get_from : Slice → ℕ → Option Slice
get_from s offset =
    if leb offset s.len then some (record { ptr = s.ptr + offset; len = s.len - offset }) else none

-- `from_ne_bytes` of this many bytes, on a little-endian machine
unfoldable pub from_bytes : Memory → ℕ → ℕ → ℕ
from_bytes mem p zero = 0
from_bytes mem p (suc k) = mem p + 256 * from_bytes mem (p + 1) k

-- The bytes before the first NUL. The fuel bounds their number.
unfoldable pub c_bytes : ℕ → Memory → ℕ → List ℕ
unfolding nat_eq
c_bytes zero mem p = []
c_bytes (suc fuel) mem p =
    let rest = mem p ∷ c_bytes fuel mem (p + 1) in if mem p == 0 then [] else rest

-- No text is longer than the address space.
abbrev pub address_space : ℕ
address_space = 2 ^ 64

-- `String::from_utf8_lossy(CStr::from_ptr(p).to_bytes()).to_string()`
unfoldable pub c_string : Memory → ℕ → String
unfolding c_bytes from_utf8_lossy
c_string mem p = from_utf8_lossy (c_bytes address_space mem p)

-- The generated constants `ROS_TYPE_..`; the code writes the number of int8 out itself.
pub record FieldTypes : Type 0 where
  pub string : ℕ
  pub wstring : ℕ
  pub float : ℕ
  pub double : ℕ
  pub long_double : ℕ
  pub char : ℕ
  pub wchar : ℕ
  pub boolean : ℕ
  pub octet : ℕ
  pub uint8 : ℕ
  pub uint16 : ℕ
  pub int16 : ℕ
  pub uint32 : ℕ
  pub int32 : ℕ
  pub uint64 : ℕ
  pub int64 : ℕ
  pub message : ℕ

-- The layout of the runtime's structures, and the wide strings of the widestring crate: `none` is
-- a text that is not valid UTF-16.
pub record Bindings : Type 0 where
  pub field_types : FieldTypes
  pub string_data : Memory → ℕ → ℕ
  pub sequence_size : Memory → ℕ → ℕ
  pub u16_string : Memory → ℕ → Option String

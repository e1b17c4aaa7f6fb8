-- ===== src/Interpret/Values.antt =====
-- `ros_to_attr_val` (modality-ros-hook/src/lib.rs), on a little-endian machine where `c_char` is
-- signed.
pub mod Integers
use modality_ros.Prelude.{
  ℕ, zero, suc, ◌+◌, ◌-◌, ◌*◌, ◌/◌, ◌%◌, ◌^◌, String, ◌<>◌, not, Option, none, some, leb, ◌==◌,
  nat_eq, if◌then◌else◌, ◌≡◌, refl,
}
use modality_ros.Prelude.Int.{ℤ, pos, negsuc, signed}
use modality_ros.Prelude.Text.{decimal}
use modality_ros.Prelude.Unicode.{to_char}
use modality_ros.Api.{AttrVal}
use modality_ros.Memory.{Memory, Bindings, from_bytes, c_string}

-- The place of the highest one bit, of those below the given number of bits.
top_bit : ℕ → ℕ → ℕ
top_bit zero n = 0
top_bit (suc k) n = let rest = top_bit k n in if leb (2 ^ k) n then k else rest

-- The bits of `f as f64`, from those of an `f32`: infinities and NaN, zero and subnormal numbers,
-- and the others. A NaN is made quiet.
unfoldable pub f32_as_f64 : ℕ → ℕ
unfolding top_bit nat_eq
f32_as_f64 bits =
    let sign = bits / 2 ^ 31 * 2 ^ 63 in
    let exponent = bits / 2 ^ 23 % 2 ^ 8 in
    let fraction = bits % 2 ^ 23 in
    let k = top_bit 23 fraction in
    if exponent == 255
    then sign + 2047 * 2 ^ 52 + (if fraction == 0 then 0 else 2 ^ 51 + fraction % 2 ^ 22 * 2 ^ 29)
    else if exponent == 0
    then if fraction == 0
      then sign
      else sign + (k + 874) * 2 ^ 52 + (fraction - 2 ^ k) * 2 ^ (52 - k)
    else sign + (exponent + 896) * 2 ^ 52 + fraction * 2 ^ 29

-- `n.to_string()`, of a signed integer
signed_decimal : ℤ → String
unfolding decimal
signed_decimal (pos n) = decimal n
signed_decimal (negsuc n) = "-" <> decimal (suc n)

text_of : Option String → Option AttrVal
text_of none = none
text_of (some s) = some (AttrVal.string s)

-- `new_attr_val` is `BigInt::new_attr_val` of the SDK.
module _ (b : Bindings) (new_attr_val : ℕ → AttrVal) (mem : Memory) where
  unfoldable pub ros_to_attr_val : ℕ → ℕ → Option AttrVal
  unfolding f32_as_f64 signed_decimal text_of from_bytes c_string nat_eq to_char
  ros_to_attr_val type_id ptr =
      let ft = b.field_types in
      let number = λ (bytes : ℕ). from_bytes mem ptr bytes in
      let integer = λ (bytes : ℕ). some (AttrVal.integer (signed (8 * bytes) (number bytes))) in
      let natural = λ (bytes : ℕ). some (AttrVal.integer (pos (number bytes))) in
      if type_id == ft.string
      then some (AttrVal.string (c_string mem (b.string_data mem ptr)))
      else if type_id == ft.wstring
      then text_of (b.u16_string mem ptr)
      else if type_id == ft.float
      then some (AttrVal.float (f32_as_f64 (number 4)))
      else if type_id == ft.double
      then some (AttrVal.float (number 8))
      else if type_id == ft.long_double
      then none
      else if type_id == ft.char
      then some (AttrVal.string (signed_decimal (signed 8 (number 1))))
      else if type_id == ft.wchar
      then some (AttrVal.string (String.◌∷◌ (to_char (number 2)) ""))
      else if type_id == ft.boolean
      then some (AttrVal.bool (not (mem ptr == 0)))
      else if type_id == ft.octet
      then natural 1
      else if type_id == ft.uint8
      then natural 1
      else if type_id == 9
      then integer 1
      else if type_id == ft.uint16
      then natural 2
      else if type_id == ft.int16
      then integer 2
      else if type_id == ft.uint32
      then natural 4
      else if type_id == ft.int32
      then integer 4
      else if type_id == ft.uint64
      then some (new_attr_val (number 8))
      else if type_id == ft.int64
      then integer 8
      else none

-- 1.0, -2.5 and the smallest subnormal
one : f32_as_f64 0x3f800000 ≡ 0x3ff0000000000000
unfolding f32_as_f64
one = refl

minus_two_and_a_half : f32_as_f64 0xc0200000 ≡ 0xc004000000000000
unfolding f32_as_f64
minus_two_and_a_half = refl

smallest : f32_as_f64 1 ≡ 0x36a0000000000000
unfolding f32_as_f64
smallest = refl

-- ===== src/Interpret/Values/Integers.antt =====
-- The integers that `ros_to_attr_val` of modality-ros-hook/src/lib.rs reads out of memory.
use modality_ros.Prelude.{
  ℕ, zero, suc, ◌+◌, ◌-◌, ◌*◌, ◌/◌, ◌%◌, ◌^◌, ◌<◌, ◌≡◌, refl, ap, ◌∙◌, some, ltb, if◌then◌else◌,
  nat_eq, arith,
}
use modality_ros.Prelude.Int.{ℤ, pos, negsuc}
use modality_ros.Api.{AttrVal}
use modality_ros.Memory.{Memory, FieldTypes, Bindings, from_bytes}
use modality_ros.Interpret.Values.{ros_to_attr_val}

-- The numbers that rosidl_typesupport_introspection_c documents for the types of members.
abbrev pub documented : FieldTypes
documented = record {
  float = 1;
  double = 2;
  long_double = 3;
  char = 4;
  wchar = 5;
  boolean = 6;
  octet = 7;
  uint8 = 8;
  uint16 = 10;
  int16 = 11;
  uint32 = 12;
  int32 = 13;
  uint64 = 14;
  int64 = 15;
  string = 16;
  wstring = 17;
  message = 18;
}

-- An integer type: its number, how many bytes it has, and whether it has a sign.
pub data IntegerType : Type 0 where
  octet uint8 uint16 uint32 uint64 : IntegerType
  int8 int16 int32 int64 : IntegerType

abbrev pub type_id : IntegerType → ℕ
type_id octet = 7
type_id uint8 = 8
type_id int8 = 9
type_id uint16 = 10
type_id int16 = 11
type_id uint32 = 12
type_id int32 = 13
type_id uint64 = 14
type_id int64 = 15

abbrev pub size : IntegerType → ℕ
size octet = 1
size uint8 = 1
size int8 = 1
size uint16 = 2
size int16 = 2
size uint32 = 4
size int32 = 4
size uint64 = 8
size int64 = 8

-- A number without a sign, below a bound.
abbrev pub Natural : ℕ → ℤ → Type 0
Natural bound (pos n) = n < bound
Natural bound (negsuc n) = ⊥

-- A number from minus the half of the bit patterns on, and below that half.
abbrev pub Signed : ℕ → ℤ → Type 0
Signed half (pos n) = n < half
Signed half (negsuc n) = n < half

-- The integer is a value of the type.
abbrev pub IsValue : IntegerType → ℤ → Type 0
IsValue octet z = Natural (2 ^ 8) z
IsValue uint8 z = Natural (2 ^ 8) z
IsValue uint16 z = Natural (2 ^ 16) z
IsValue uint32 z = Natural (2 ^ 32) z
IsValue uint64 z = Natural (2 ^ 64) z
IsValue int8 z = Signed (2 ^ 7) z
IsValue int16 z = Signed (2 ^ 15) z
IsValue int32 z = Signed (2 ^ 31) z
IsValue int64 z = Signed (2 ^ 63) z

-- The two's complement, of so many bit patterns.
abbrev pub complement : ℕ → ℤ → ℕ
complement patterns (pos n) = n
complement patterns (negsuc n) = patterns - suc n

-- The bytes of the number stand at the address, the lowest first.
abbrev pub Written : Memory → ℕ → ℕ → ℕ → Type 0
Written mem p zero n = Unit
Written mem p (suc k) n = (mem p ≡ n % 256) × Written mem (p + 1) k (n / 256)

abbrev pub patterns : ℕ → ℕ
patterns zero = 1
patterns (suc k) = 256 * patterns k

-- `new_attr_val` is that of the SDK's big integers.
abbrev pub value_of : IntegerType → (ℕ → AttrVal) → ℤ → AttrVal
value_of uint64 new_attr_val z = new_attr_val (complement (2 ^ 64) z)
value_of _ new_attr_val z = AttrVal.integer z

from_bytes-Written :
    (mem : Memory) (p k n : ℕ) → n < patterns k → Written mem p k n → from_bytes mem p k ≡ n
unfolding from_bytes
from_bytes-Written mem p zero n l w = omega (arith, l)
from_bytes-Written mem p (suc k) n l w =
    omega (arith, l, w.0, from_bytes-Written mem (p + 1) k (n / 256) (omega (arith, l)) w.1)

-- What is read with a sign is the number whose complement was written.
complement_back :
    (half : ℕ) (z : ℤ)
    → Signed half z
    → (if ltb (complement (2 * half) z) half
        then pos (complement (2 * half) z)
        else negsuc (2 * half - complement (2 * half) z - 1))
      ≡ z
complement_back half (pos n) h = ground arith
complement_back half (negsuc n) h = ground arith

complement-Signed : (half : ℕ) (z : ℤ) → Signed half z → complement (2 * half) z < 2 * half
complement-Signed half (pos n) h = omega (arith, h)
complement-Signed half (negsuc n) h = omega (arith, h)

complement-Natural :
    (bound : ℕ) (z : ℤ)
    → Natural bound z
    → (complement bound z < bound) × (pos (complement bound z) ≡ z)
complement-Natural bound (pos n) h = (h, refl)
complement-Natural bound (negsuc n) h = absurd h

module _ (b : Bindings) (new_attr_val : ℕ → AttrVal) (mem : Memory) (p : ℕ) where
  -- The value of a type, once the numbers of the types are those that are documented.
  by_documented :
      (id : ℕ)
      → b.field_types ≡ documented
      → ros_to_attr_val b new_attr_val mem id p
        ≡ ros_to_attr_val (record b { field_types = documented }) new_attr_val mem id p
  by_documented id e =
      ap (λ ft. ros_to_attr_val (record b { field_types = ft }) new_attr_val mem id p) e

  natural :
      (k : ℕ) (z : ℤ)
      → Natural (patterns k) z
      → Written mem p k (complement (patterns k) z)
      → pos (from_bytes mem p k) ≡ z
  natural k z h w =
      let (below, same) = complement-Natural (patterns k) z h in
      ap pos (from_bytes-Written mem p k (complement (patterns k) z) below w) ∙ same

  integer :
      (k half : ℕ) (z : ℤ)
      → patterns k ≡ 2 * half
      → Signed half z
      → Written mem p k (complement (2 * half) z)
      → (if ltb (from_bytes mem p k) half
          then pos (from_bytes mem p k)
          else negsuc (2 * half - from_bytes mem p k - 1))
        ≡ z
  integer k half z e h w =
      ap (λ n. if ltb n half then pos n else negsuc (2 * half - n - 1))
        (from_bytes-Written mem p k (complement (2 * half) z)
          (omega (arith, e, complement-Signed half z h)) w)
      ∙ complement_back half z h

  big :
      (z : ℤ)
      → Natural (patterns 8) z
      → Written mem p 8 (complement (patterns 8) z)
      → from_bytes mem p 8 ≡ complement (patterns 8) z
  big z h w =
      from_bytes-Written mem p 8 (complement (patterns 8) z) (complement-Natural (patterns 8) z h).0
        w

  -- If the type numbers are those that are documented, and the bytes at an address are the two's
  -- complement of a value of an integer type, the lowest first, then what is read there as a
  -- member of that type is this value (for a uint64 the big integer that the SDK makes of it).
  pub ros_to_attr_val-Written :
      (t : IntegerType) (z : ℤ)
      → b.field_types ≡ documented
      → IsValue t z
      → Written mem p (size t) (complement (patterns (size t)) z)
      → ros_to_attr_val b new_attr_val mem (type_id t) p ≡ some (value_of t new_attr_val z)
  unfolding ros_to_attr_val
  ros_to_attr_val-Written octet z e h w =
      by_documented 7 e ∙ ap (λ x. some (AttrVal.integer x)) (natural 1 z h w)
  ros_to_attr_val-Written uint8 z e h w =
      by_documented 8 e ∙ ap (λ x. some (AttrVal.integer x)) (natural 1 z h w)
  ros_to_attr_val-Written uint16 z e h w =
      by_documented 10 e ∙ ap (λ x. some (AttrVal.integer x)) (natural 2 z h w)
  ros_to_attr_val-Written uint32 z e h w =
      by_documented 12 e ∙ ap (λ x. some (AttrVal.integer x)) (natural 4 z h w)
  ros_to_attr_val-Written uint64 z e h w =
      by_documented 14 e ∙ ap (λ x. some (new_attr_val x)) (big z h w)
  ros_to_attr_val-Written int8 z e h w =
      by_documented 9 e ∙ ap (λ x. some (AttrVal.integer x)) (integer 1 (2 ^ 7) z refl h w)
  ros_to_attr_val-Written int16 z e h w =
      by_documented 11 e ∙ ap (λ x. some (AttrVal.integer x)) (integer 2 (2 ^ 15) z refl h w)
  ros_to_attr_val-Written int32 z e h w =
      by_documented 13 e ∙ ap (λ x. some (AttrVal.integer x)) (integer 4 (2 ^ 31) z refl h w)
  ros_to_attr_val-Written int64 z e h w =
      by_documented 15 e ∙ ap (λ x. some (AttrVal.integer x)) (integer 8 (2 ^ 63) z refl h w)

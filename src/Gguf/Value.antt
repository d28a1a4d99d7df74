-- ===== src/Gguf/Value.antt =====
-- The metadata values of app/gguf/constants.py and the value readers of app/gguf/reader.py. A number
-- is kept as the bit pattern that the file holds; a text is its UTF-8 bytes, and which bytes decode
-- is a parameter, since the decoder is Python's.
use matricxon.Base.{ℕ, zero, suc, List, [], ◌∷◌, Bool, not, Option, none, some, eqb, if◌then◌else◌}
use matricxon.Gguf.Parser.{
  Parser, ◌>>=◌, pure, fail, out_of_fuel, bad_type, bad_text, no_scalar, read_bytes, repeat,
}
use matricxon.Gguf.Number.{read_unsigned}

-- `GGUFValueType`, in the order of its numbers.
pub data ValueType : Type 0 where
  uint8 int8 uint16 int16 uint32 int32 float32 boolean string array uint64 int64 float64 : ValueType

abbrev pub number_of : ValueType → ℕ
number_of uint8 = 0
number_of int8 = 1
number_of uint16 = 2
number_of int16 = 3
number_of uint32 = 4
number_of int32 = 5
number_of float32 = 6
number_of boolean = 7
number_of string = 8
number_of array = 9
number_of uint64 = 10
number_of int64 = 11
number_of float64 = 12

abbrev all_types : List ValueType
all_types =
    uint8 ∷ int8 ∷ uint16 ∷ int16 ∷ uint32 ∷ int32 ∷ float32 ∷ boolean ∷ string ∷ array ∷ uint64
    ∷ int64 ∷ float64 ∷ []

abbrev with_number : ℕ → List ValueType → Option ValueType
with_number n [] = none
with_number n (t ∷ ts) = if eqb (number_of t) n then some t else with_number n ts

-- `GGUFValueType(n)`
unfoldable pub type_of_number : ℕ → Option ValueType
type_of_number n = with_number n all_types

-- The size of the layout in `_SCALAR_STRUCTS`, none for a type that has none.
abbrev pub width_of : ValueType → Option ℕ
width_of uint8 = some 1
width_of int8 = some 1
width_of uint16 = some 2
width_of int16 = some 2
width_of uint32 = some 4
width_of int32 = some 4
width_of float32 = some 4
width_of uint64 = some 8
width_of int64 = some 8
width_of float64 = some 8
width_of _ = none

mutual
  pub data Value : Type 0 where
    scalar : ValueType → ℕ → Value
    flag : Bool → Value
    text : List ℕ → Value
    items : ValueType → Values → Value

  pub data Values : Type 0 where
    nil : Values
    cons : Value → Values → Values

abbrev pub from_list : List Value → Values
from_list [] = nil
from_list (v ∷ vs) = cons v (from_list vs)

unfoldable pub read_type : Parser ValueType
unfolding type_of_number
read_type =
    read_unsigned 4 >>= λ n. elim (type_of_number n) [ none ↦ fail bad_type | some t ↦ pure t ]

unfoldable pub read_scalar : ValueType → Parser Value
read_scalar t = elim (width_of t) [
  | none ↦ fail no_scalar
  | some width ↦ read_unsigned width >>= λ n. pure (scalar t n)
]

module _ (decodes : List ℕ → Bool) where
  -- `_read_str`
  unfoldable pub read_text : Parser (List ℕ)
  read_text = read_unsigned 8 >>= λ n.
      read_bytes n >>= λ bytes. if decodes bytes then pure bytes else fail bad_text

  -- `_read_value`, on fuel for arrays in arrays. The recursion limit of Python is left out.
  unfoldable pub read_value : ℕ → ValueType → Parser Value
  unfolding read_text read_type read_scalar
  read_value fuel string = read_text >>= λ bytes. pure (text bytes)
  read_value fuel boolean = read_unsigned 1 >>= λ n. pure (flag (not (eqb n 0)))
  read_value zero array = read_type >>= λ t. read_unsigned 8 >>= λ count. fail out_of_fuel
  read_value (suc fuel) array = read_type >>= λ t. read_unsigned 8 >>= λ count.
      repeat count (read_value fuel t) >>= λ vs. pure (items t (from_list vs))
  read_value fuel t = read_scalar t

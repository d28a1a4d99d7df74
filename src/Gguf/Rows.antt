-- ===== src/Gguf/Rows.antt =====
-- app/gguf/mmap_source.py, app/gguf/packed_rows.py and the look-up of app/gguf/loader.py: the bytes
-- of one tensor in a file, and its rows.
use mathlib.Core.List.{reverse}
use matricxon.Base.Dict.{Dict, get, put}
use matricxon.Base.{
  inr, inl, ◌⊎◌, not, ◌||◌, ℕ, ◌+◌, ◌*◌, ◌/◌, ◌%◌, List, [], ◌∷◌, ◌++◌, Option, none, some, length,
  take, drop, eqb, if◌then◌else◌,
}
use matricxon.Gguf.Reader.{TensorInfo, ParsedGguf, n_elements}
use matricxon.Gguf.Metadata.{bytes_eq}

-- `data[start : start + count]` of a Python slice, which ends where the data ends.
abbrev pub slice : ℕ → ℕ → List ℕ → List ℕ
slice start count bytes = take count (drop start bytes)

-- `GGUFMemoryMap.raw_tensor_bytes`
unfoldable pub raw_tensor_bytes : List ℕ → TensorInfo → ℕ → ℕ → List ℕ
raw_tensor_bytes mapped info data_start_offset byte_length =
    slice (data_start_offset + info.offset) byte_length mapped

-- `QuantStrategy.byte_length`; none is the `ValueError`.
unfoldable pub byte_length : ℕ → ℕ → ℕ → Option ℕ
byte_length block_size type_size n =
    if eqb (n % block_size) 0 then some (n / block_size * type_size) else none

-- `{t.name: t for t in tensor_infos}`: the last tensor of a name stays.
unfoldable pub by_name : List TensorInfo → Dict (List ℕ) TensorInfo → Dict (List ℕ) TensorInfo
by_name [] found = found
by_name (t ∷ ts) found = by_name ts (put t.name t found)

-- The reasons why a tensor is not loaded.
pub data LoadError : Type 0 where
  unknown_tensor unsupported_type ragged_blocks : LoadError

-- `raw_tensor_bytes_and_type`. `layout` is the registry: the elements and the bytes of a block of a
-- supported type.
module _ (layout : ℕ → Option (ℕ × ℕ)) where
  unfoldable pub raw_tensor_bytes_and_type :
      List ℕ → ParsedGguf → List ℕ → LoadError ⊎ (List ℕ × ℕ × List ℕ)
  unfolding raw_tensor_bytes byte_length by_name n_elements
  raw_tensor_bytes_and_type mapped parsed name = elim (get name (by_name parsed.tensor_infos [])) [
    | none ↦ inl unknown_tensor
    | some info ↦ elim (layout info.ggml_type) [
      | none ↦ inl unsupported_type
      | some (block_size, type_size) ↦
          elim (byte_length block_size type_size (n_elements info.shape)) [
            | none ↦ inl ragged_blocks
            | some count ↦ inr (
              raw_tensor_bytes mapped info parsed.data_start_offset count,
              info.ggml_type,
              reverse info.shape,
            )
          ]
    ]
  ]

-- `PackedRows`
pub record PackedRows : Type 0 where
  pub raw : List ℕ
  pub n_rows : ℕ
  pub row_bytes : ℕ

-- `PackedRows.__init__`; none is the `ValueError`.
unfoldable pub packed_rows : List ℕ → ℕ → Option PackedRows
packed_rows raw n_rows =
    if eqb n_rows 0 || not (eqb (length raw % n_rows) 0)
    then none
    else some (record { raw = raw; n_rows = n_rows; row_bytes = length raw / n_rows })

-- `PackedRows.row`
unfoldable pub row : PackedRows → ℕ → List ℕ
row p index = slice (index * p.row_bytes) p.row_bytes p.raw

-- `PackedRows.reordered`, for an order of rows that are there.
unfoldable pub reordered : PackedRows → List ℕ → List ℕ
unfolding row
reordered p [] = []
reordered p (i ∷ order) = row p i ++ reordered p order

-- ===== src/Gguf/Reader.antt =====
-- app/gguf/reader.py and app/gguf/tensor_info.py: the whole header of a file.
use matricxon.Base.{
  ℕ, zero, suc, ◌+◌, ◌-◌, ◌*◌, ◌/◌, ◌^◌, List, [], ◌∷◌, Bool, true, Option, none, some, length, ltb,
  eqb, if◌then◌else◌, ◌==◌,
}
use matricxon.Base.Dict.{get, put}
use matricxon.Gguf.Parser.{
  Parser, Result, ok, err, File, ◌>>=◌, pure, fail, bad_magic, bad_version, bad_alignment,
  read_bytes, repeat,
}
use matricxon.Gguf.Number.{read_unsigned}
use matricxon.Gguf.Value.{
  uint8, int8, uint16, int16, uint32, int32, uint64, int64, Value, scalar, flag, read_type,
  read_text, read_value,
}
use matricxon.Gguf.Metadata.{codes, bytes_eq, Metadata}

pub record TensorInfo : Type 0 where
  pub name : List ℕ
  pub shape : List ℕ
  pub ggml_type : ℕ
  pub offset : ℕ

-- `n_elements`
unfoldable pub n_elements : List ℕ → ℕ
n_elements [] = 1
n_elements (dim ∷ dims) = dim * n_elements dims

pub record ParsedGguf : Type 0 where
  pub version : ℕ
  pub metadata : Metadata
  pub tensor_infos : List TensorInfo
  pub data_start_offset : ℕ

-- `_check_magic`
unfoldable pub check_magic : Parser (Unit {0})
check_magic = read_bytes 4 >>= λ magic. if magic == codes "GGUF" then pure tt else fail bad_magic

-- `_align`
unfoldable pub align : ℕ → ℕ → ℕ
align offset alignment = (offset + alignment - 1) / alignment * alignment

-- The alignment as a positive whole number. A `bool` counts as a number in Python; zero divides by
-- zero; a text and a list raise a `TypeError`; a float and a negative number, for which the source
-- computes something, are refused here.
unfoldable pub alignment_of : Option Value → Option ℕ
alignment_of none = some 32
alignment_of (some (scalar uint8 n)) = if eqb n 0 then none else some n
alignment_of (some (scalar uint16 n)) = if eqb n 0 then none else some n
alignment_of (some (scalar uint32 n)) = if eqb n 0 then none else some n
alignment_of (some (scalar uint64 n)) = if eqb n 0 then none else some n
alignment_of (some (scalar int8 n)) =
    if eqb n 0 then none else if ltb n (2 ^ 7) then some n else none
alignment_of (some (scalar int16 n)) =
    if eqb n 0 then none else if ltb n (2 ^ 15) then some n else none
alignment_of (some (scalar int32 n)) =
    if eqb n 0 then none else if ltb n (2 ^ 31) then some n else none
alignment_of (some (scalar int64 n)) =
    if eqb n 0 then none else if ltb n (2 ^ 63) then some n else none
alignment_of (some (flag true)) = some 1
alignment_of (some _) = none

module _ (decodes : List ℕ → Bool) where
  -- One round of `_read_metadata_kvs`. The rest of the file is fuel enough for a value.
  unfoldable pub read_entry : Parser (List ℕ × Value)
  read_entry = read_text decodes >>= λ key.
      read_type >>= λ t. (λ f. read_value decodes (length f.rest) t f) >>= λ v. pure (key, v)

  -- `_read_metadata_kvs`
  unfoldable pub read_metadata : ℕ → Metadata → Parser Metadata
  unfolding read_entry
  read_metadata zero values = pure values
  read_metadata (suc count) values = read_entry >>= λ e. read_metadata count (put e.0 e.1 values)

  -- One round of `_read_tensor_infos`.
  unfoldable pub read_info : Parser TensorInfo
  read_info = read_text decodes >>= λ name. read_unsigned 4 >>= λ n_dims.
      repeat n_dims (read_unsigned 8) >>= λ shape. read_unsigned 4 >>= λ ggml_type.
      read_unsigned 8 >>= λ offset.
      pure (record { name = name; shape = shape; ggml_type = ggml_type; offset = offset })

  -- The end of `read`: `f.tell()` is the position after the table.
  unfoldable pub finish : Metadata → List TensorInfo → Parser ParsedGguf
  unfolding alignment_of align
  finish metadata infos f = elim (alignment_of (get (codes "general.alignment") metadata)) [
    | none ↦ err bad_alignment
    | some alignment ↦ ok (
      record {
        version = 3;
        metadata = metadata;
        tensor_infos = infos;
        data_start_offset = align f.pos alignment;
      },
      f,
    )
  ]

  -- `read`, from the start of the file.
  unfoldable pub read_file : Parser ParsedGguf
  unfolding check_magic read_metadata read_info finish
  read_file = check_magic >>= λ _. read_unsigned 4 >>= λ version.
      (if eqb version 3
        then (read_unsigned 8 >>= λ tensor_count. read_unsigned 8 >>= λ kv_count.
            read_metadata kv_count [] >>= λ metadata.
            repeat tensor_count read_info >>= λ infos. finish metadata infos)
        else fail bad_version)

  unfoldable pub read : List ℕ → Result (ParsedGguf × File)
  unfolding read_file
  read bytes = read_file (record { pos = 0; rest = bytes })

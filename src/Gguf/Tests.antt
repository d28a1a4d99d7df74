-- ===== src/Gguf/Tests.antt =====
-- Runs of app/gguf at concrete inputs.
use matricxon.Base.{
  contains, of_some, ap, ◌^◌, ℕ, ◌++◌, ◌+◌, ◌%◌, ◌≤◌, ◌<◌, ◌≡◌, ◌≢◌, List, [], ◌∷◌, Bool, true,
  some, In, inl, inr, refl, arith, sym, subst, take,
}
use matricxon.Base.Dict.{get}
use matricxon.Gguf.Written.{IsValue}
use matricxon.Gguf.Parser.{File, Result, err, ok, out_of_fuel, bad_magic, bad_version}
use matricxon.Gguf.Reader.{ParsedGguf, TensorInfo, read, align, alignment_of}
use matricxon.Gguf.Metadata.{bytes_discrete, codes, Metadata, bytes_eq}
use matricxon.Gguf.Number.{little}
use matricxon.Gguf.Value.{Value, uint32, scalar, uint8, items, cons, nil}
use matricxon.Gguf.RoundTrip.{written_file, header_size, read-written_file, IsEntry, IsInfo}
use matricxon.Gguf.Refused.{read_refused}
use matricxon.Gguf.Fuel.{read_enough}
use matricxon.Gguf.Rows.{PackedRows, packed_rows, row, reordered}
use matricxon.Gguf.Bounds.{align_lem, row-reordered, entry}

abbrev any_bytes : List ℕ → Bool
any_bytes bytes = true

abbrev metadata_two : Metadata
metadata_two =
    (codes "general.alignment", scalar uint32 64)
    ∷ (codes "sizes", items uint8 (cons (scalar uint8 3) (cons (scalar uint8 4) nil)))
    ∷ []

abbrev info_one : TensorInfo
info_one = record { name = codes "w"; shape = 3 ∷ 2 ∷ []; ggml_type = 0; offset = 0 }

abbrev parsed_one : Result (ParsedGguf × File)
parsed_one = ok (
  record {
    version = 3;
    metadata = metadata_two;
    tensor_infos = info_one ∷ [];
    data_start_offset = align (header_size metadata_two (info_one ∷ [])) 64;
  },
  record { pos = header_size metadata_two (info_one ∷ []); rest = 7 ∷ 8 ∷ [] },
)

metadata_two-IsEntry : (e : List ℕ × Value) → In e metadata_two → IsEntry any_bytes e
metadata_two-IsEntry e (inl p) =
    subst (IsEntry any_bytes) (sym p) ((refl, omega arith), (refl, (4, refl, omega arith)))
metadata_two-IsEntry e (inr (inl p)) =
    subst (IsEntry any_bytes) (sym p)
      ((refl, omega arith), (refl, omega arith, (byte 3 (omega arith), (byte 4 (omega arith), tt))))
  where
    byte : (n : ℕ) → n < 256 → IsValue any_bytes uint8 (scalar uint8 n)
    byte n small = (refl, (1, refl, omega arith))
metadata_two-IsEntry e (inr (inr p)) = elim p [ ]

info_one-IsInfo : (t : TensorInfo) → In t (info_one ∷ []) → IsInfo any_bytes t
info_one-IsInfo t (inl p) = subst (IsInfo any_bytes) (sym p) (record {
  name = (refl, omega arith);
  dims = omega arith;
  sizes = small;
  ggml_type = omega arith;
  offset = omega arith;
})
  where
    small : (n : ℕ) → In n (3 ∷ 2 ∷ []) → n < 256 ^ 8
    small n (inl q) = omega (arith, q)
    small n (inr (inl q)) = omega (arith, q)
    small n (inr (inr q)) = elim q [ ]
info_one-IsInfo t (inr x) = elim x [ ]

read-written_file_example :
    read any_bytes (written_file metadata_two (info_one ∷ []) (7 ∷ 8 ∷ [])) ≡ parsed_one
unfolding alignment_of bytes_discrete get contains
read-written_file_example =
    read-written_file any_bytes metadata_two (info_one ∷ []) (7 ∷ 8 ∷ []) 64 (omega arith)
      (omega arith) metadata_two-IsEntry (refl, (refl, tt)) info_one-IsInfo refl

read_enough_example : read any_bytes (codes "GGUF") ≢ err out_of_fuel
read_enough_example = read_enough any_bytes (codes "GGUF")

read_refused_example :
    (read any_bytes (codes "GGML") ≡ err bad_magic)
    × (read any_bytes (codes "GGUF" ++ little 4 2 ++ []) ≡ err bad_version)
read_refused_example = read_refused any_bytes (codes "GGML") 2 [] other (omega arith) (omega arith)
  where
    other : take 4 (codes "GGML") ≢ codes "GGUF"
    other p = absurd (omega (arith, of_some (ap (entry 2) p)))

align_lem_example : (align 33 32 % 32 ≡ 0) × (33 ≤ align 33 32) × (align 33 32 < 33 + 32)
align_lem_example = align_lem 33 32 (omega arith)

abbrev rows_two : PackedRows
rows_two = record { raw = 1 ∷ 2 ∷ 3 ∷ 4 ∷ []; n_rows = 2; row_bytes = 2 }

row-reordered_example :
    (q : PackedRows) × (packed_rows (reordered rows_two (1 ∷ 0 ∷ 1 ∷ [])) 3 ≡ some q)
    × (row q 2 ≡ row rows_two 1)
unfolding packed_rows
row-reordered_example =
    row-reordered (1 ∷ 2 ∷ 3 ∷ 4 ∷ []) 2 rows_two (1 ∷ 0 ∷ 1 ∷ []) 2 1 refl below refl
  where
    below : (k : ℕ) → In k (1 ∷ 0 ∷ 1 ∷ []) → k < 2
    below k (inl p) = omega (arith, p)
    below k (inr (inl p)) = omega (arith, p)
    below k (inr (inr (inl p))) = omega (arith, p)
    below k (inr (inr (inr p))) = elim p [ ]

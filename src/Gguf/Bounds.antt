-- ===== src/Gguf/Bounds.antt =====
-- Where the tensors' data begins, and the rows of a packed weight.
use mathlib.Core.Path.{subst, refl}
use native.Mathlib.Nat.{
  div-add-mod', mul-div_right, mul-mod_right, mul-le-mul_right, mul-mod_left, lt-div-mul-add,
  div-mul-le_self,
}
use matricxon.Base.Slices.{length-slice, take-prefix, drop-prefix}
use matricxon.Base.{
  if◌then◌else◌, Bool-cases, false, not, ◌||◌, inl, eqb, inr, length-append, of_some, In, some, ◌∙◌,
  none, ap, Option, ℕ, zero, suc, ◌+◌, ◌-◌, ◌*◌, ◌/◌, ◌%◌, ◌≤◌, ◌<◌, ◌≡◌, List, [], ◌∷◌, ◌++◌,
  length, take, drop, arith,
}
use matricxon.Gguf.Reader.{align}
use matricxon.Gguf.Rows.{slice, PackedRows, packed_rows, row, reordered}

-- For a positive alignment the aligned offset is a multiple of it, not below the offset, and less
-- than one alignment above it.
pub align_lem :
    (pos a : ℕ) → 0 < a → (align pos a % a ≡ 0) × (pos ≤ align pos a) × (align pos a < pos + a)
unfolding align
align_lem pos a h = (
  mul-mod_left ((pos + a - 1) / a) a,
  omega (arith, lt-div-mul-add {a = pos + a - 1} h),
  omega (arith, div-mul-le_self (pos + a - 1) a),
)

-- The entry of a list.
abbrev pub entry : ℕ → List ℕ → Option ℕ
entry i [] = none
entry zero (x ∷ xs) = some x
entry (suc i) (x ∷ xs) = entry i xs

module _ (p : PackedRows) where
  -- The rows that an order names are there.
  abbrev There : List ℕ → Type 0
  There [] = Unit
  There (i ∷ order) = (i * p.row_bytes + p.row_bytes ≤ length p.raw) × There order

  length-row :
      (i : ℕ) → i * p.row_bytes + p.row_bytes ≤ length p.raw → length (row p i) ≡ p.row_bytes
  unfolding row
  length-row i h = length-slice (i * p.row_bytes) p.row_bytes p.raw h

  length-reordered :
      (order : List ℕ) → There order → length (reordered p order) ≡ length order * p.row_bytes
  unfolding reordered
  length-reordered [] h = omega arith
  length-reordered (i ∷ order) h = omega (
    arith,
    length-append (row p i) (reordered p order),
    length-row i h.0,
    length-reordered order h.1,
  )

  slice-reordered :
      (order : List ℕ) (i o : ℕ)
      → There order
      → entry i order ≡ some o
      → slice (i * p.row_bytes) p.row_bytes (reordered p order) ≡ row p o
  unfolding reordered
  slice-reordered [] i o h e = absurd (cc)
  slice-reordered (k ∷ order) zero o h e =
      ap (λ k'. take p.row_bytes (drop k' (row p k ++ reordered p order))) {x = 0 * p.row_bytes}
        {y = 0} (omega arith)
      ∙ take-prefix p.row_bytes (row p k) (reordered p order) (length-row k h.0)
      ∙ ap (row p) (of_some e)
  slice-reordered (k ∷ order) (suc i) o h e =
      ap (λ k'. take p.row_bytes (drop k' (row p k ++ reordered p order))) next
      ∙ ap (take p.row_bytes) (
          drop-prefix p.row_bytes (i * p.row_bytes) (row p k) (reordered p order)
            (length-row k h.0))
      ∙ slice-reordered order i o h.1 e
    where
      next : suc i * p.row_bytes ≡ p.row_bytes + i * p.row_bytes
      next = omega arith

packed_rows_exact :
    (raw : List ℕ) (n : ℕ) (p : PackedRows)
    → packed_rows raw n ≡ some p
    → (p.raw ≡ raw) × (p.row_bytes * n ≡ length raw) × (0 < n)
unfolding packed_rows
packed_rows_exact raw n p h = elim (Bool-cases (eqb n 0 || not (eqb (length raw % n) 0))) [
  | inl t ↦ absurd (cc (rw t at h))
  | inr f ↦
      let made : record { raw = raw; n_rows = n; row_bytes = length raw / n } ≡ p =
        of_some (rw f at h) in
      subst (λ (q : PackedRows). (q.raw ≡ raw) × (q.row_bytes * n ≡ length raw) × (0 < n)) made
        (refl, divided f, ground arith)
]
  where
    divided : (eqb n 0 || not (eqb (length raw % n) 0)) ≡ false → length raw / n * n ≡ length raw
    divided f = omega (arith, div-add-mod' (length raw) n, whole)
      where
        whole : length raw % n ≡ 0
        whole = ground arith

There-below :
    (p : PackedRows) (n : ℕ) (order : List ℕ)
    → n * p.row_bytes ≡ length p.raw
    → ((k : ℕ) → In k order → k < n)
    → There p order
There-below p n [] h below = tt
There-below p n (k ∷ order) h below = (
  omega (arith, mul-le-mul_right p.row_bytes (below k (inl refl))),
  There-below p n order h (λ j m. below j (inr m)),
)

entry-filled : (xs : List ℕ) (i o : ℕ) → entry i xs ≡ some o → 0 < length xs
entry-filled [] i o h = absurd (cc)
entry-filled (x ∷ xs) i o h = omega arith

-- For an order of rows that a weight has, the reordered bytes split into as many rows as the order
-- names, and each is the row of the weight that the order names in its place.
pub row-reordered :
    (raw : List ℕ) (n : ℕ) (p : PackedRows) (order : List ℕ) (i o : ℕ)
    → packed_rows raw n ≡ some p
    → ((k : ℕ) → In k order → k < n)
    → entry i order ≡ some o
    → (q : PackedRows) × (packed_rows (reordered p order) (length order) ≡ some q)
      × (row q i ≡ row p o)
unfolding packed_rows row
row-reordered raw n p order i o h below e =
    let exact = packed_rows_exact raw n p h in
    let there = There-below p n order (omega (arith, exact.1, ap length exact.0)) below in
    (
      record { raw = reordered p order; n_rows = length order; row_bytes = p.row_bytes },
      divides (length order) (length (reordered p order)) filled (length-reordered p order there),
      slice-reordered p order i o there e,
    )
  where
    filled : 0 < length order
    filled = entry-filled order i o e

    split : ℕ → ℕ → PackedRows
    split count bytes = record { raw = reordered p order; n_rows = count; row_bytes = bytes }

    divides :
        (count total : ℕ)
        → 0 < count
        → total ≡ count * p.row_bytes
        → (let some_rows : Option PackedRows = some (split count (total / count)) in
            if eqb count 0 || not (eqb (total % count) 0) then none else some_rows)
          ≡ some (split count p.row_bytes)
    divides count total pos t =
        rw (t, mul-mod_right count p.row_bytes, mul-div_right p.row_bytes pos) (ground arith)

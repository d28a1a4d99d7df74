-- ===== src/Runtime/KvCache.antt =====
-- app/runtime/kv_cache.py. A layer's two tensors are one list of cells, a key and a value for each
-- position, as long as the capacity; an exception is none.
use matricxon.Base.{
  ◌&&◌, true, Bool, ℕ, zero, suc, ◌+◌, ◌-◌, List, [], ◌∷◌, ◌++◌, map, Option, none, some, length,
  take, drop, ltb, eqb, if◌then◌else◌, ◌||◌, not,
}

module _ {A : Type 0} where
  -- `count` cells of the kind that a fresh buffer has.
  abbrev pub replicate : ℕ → A → List A
  replicate zero a = []
  replicate (suc n) a = a ∷ replicate n a

  -- `buffer[start : start + n] = cells`, for n cells.
  abbrev pub overwrite : ℕ → List A → List A → List A
  overwrite start cells buffer = take start buffer ++ (cells ++ drop (start + length cells) buffer)

  -- One element of a list through a function; none when there is no such element.
  abbrev pub change_at : ℕ → (A → A) → List A → Option (List A)
  change_at i f [] = none
  change_at zero f (x ∷ xs) = some (f x ∷ xs)
  change_at (suc i) f (x ∷ xs) =
      let rest = change_at i f xs in elim rest [ none ↦ none | some ys ↦ some (x ∷ ys) ]

  abbrev pub all_of : (A → Bool) → List A → Bool
  all_of p [] = true
  all_of p (x ∷ xs) = p x && all_of p xs

abbrev pub zip_with : {A B C : Type 0} → (A → B → C) → List A → List B → List C
zip_with f [] ys = []
zip_with f (x ∷ xs) [] = []
zip_with f (x ∷ xs) (y ∷ ys) = f x y ∷ zip_with f xs ys

-- `max_seq_len or self._max_seq_len`
abbrev pub capacity_or : Option ℕ → ℕ → ℕ
capacity_or none n = n
capacity_or (some zero) n = n
capacity_or (some (suc m)) n = suc m

pub record KvCache (A : Type 0) : Type 0 where
  pub buffers : List (List A)
  pub max_seq_len : ℕ
  pub committed : ℕ

module _ {A : Type 0} where
  -- `KVCache.__init__`, with the cell of a fresh buffer.
  unfoldable pub new_cache : A → ℕ → ℕ → KvCache A
  new_cache empty layers max_seq_len = record {
    buffers = replicate layers (replicate max_seq_len empty);
    max_seq_len = max_seq_len;
    committed = 0;
  }

  -- The committed cells of each layer.
  abbrev pub held : KvCache A → List (List A)
  held c = map (take c.committed) c.buffers

  -- `update`, without its views of the tensors.
  unfoldable pub update : ℕ → List A → KvCache A → Option (KvCache A)
  update layer cells c =
      if ltb c.max_seq_len (c.committed + length cells)
      then none
      else elim (change_at layer (overwrite c.committed cells) c.buffers) [
        | none ↦ none
        | some buffers ↦ some (record c { buffers = buffers })
      ]

  -- `advance`
  unfoldable pub advance : ℕ → KvCache A → KvCache A
  advance n c = record c { committed = c.committed + n }

  -- `truncate`
  unfoldable pub truncate : ℕ → KvCache A → Option (KvCache A)
  truncate n c = if ltb c.committed n then none else some (record c { committed = n })

  -- `fork`
  unfoldable pub fork : A → ℕ → Option ℕ → KvCache A → Option (KvCache A)
  fork empty n wanted c =
      let capacity = capacity_or wanted c.max_seq_len in
      if ltb c.committed n || ltb capacity n
      then none
      else some (record {
        buffers = map (λ buffer. overwrite 0 (take n buffer) (replicate capacity empty)) c.buffers;
        max_seq_len = capacity;
        committed = n;
      })

  -- `export`
  unfoldable pub export : ℕ → KvCache A → Option (List (List A))
  export n c = if ltb c.committed n then none else some (map (take n) c.buffers)

  -- The length of the first saved layer.
  abbrev pub saved_length : List (List A) → ℕ
  saved_length [] = 0
  saved_length (cells ∷ more) = length cells

  -- `load`, of cells of this cache's precision and shape.
  unfoldable pub load : List (List A) → KvCache A → Option (KvCache A)
  load saved c =
      if not (eqb (length saved) (length c.buffers))
        || ltb c.max_seq_len (saved_length saved)
        || not (all_of (λ cells. eqb (length cells) (saved_length saved)) saved)
      then none
      else some (record c {
        buffers = zip_with (overwrite 0) saved c.buffers;
        committed = saved_length saved;
      })

  -- `drop_range`: `turn` rotates the key of a cell.
  module _ {R : Type 0} (turn : R → A → A) where
    abbrev pub close_gap : ℕ → ℕ → ℕ → R → List A → List A
    close_gap end start count rotation buffer =
        overwrite start
          (map (turn rotation) (take (end - (start + count)) (drop (start + count) buffer))) buffer

    unfoldable pub drop_range : ℕ → ℕ → List R → KvCache A → Option (KvCache A)
    drop_range start count rotations c =
        if eqb count 0
          || ltb c.committed (start + count)
          || not (eqb (length rotations) (length c.buffers))
        then none
        else some (record c {
          buffers = zip_with (close_gap c.committed start count) rotations c.buffers;
          committed = c.committed - count;
        })

-- ===== src/Runtime/Held.antt =====
-- What the cells of a cache are after each operation of app/runtime/kv_cache.py.
use matricxon.Base.Slices.{length-map, take-prefix, take-take, length-take, length-drop}
use matricxon.Base.{
  length-append, ◌∙◌, sym, ℕ, zero, suc, ◌+◌, ◌≤◌, ◌<◌, ◌≡◌, List, [], ◌∷◌, map, Option, some,
  length, take, drop, arith, All, refl, ltb, eqb, true, false,
}
use matricxon.Runtime.KvCache.{
  KvCache, held, truncate, fork, load, export, replicate, overwrite, capacity_or, zip_with, all_of,
  saved_length,
}

module _ {A : Type 0} where
  -- Every buffer has a cell for each position of the capacity, which the committed length is within.
  abbrev pub IsFull : KvCache A → Type 0
  IsFull c = (c.committed ≤ c.max_seq_len) × All (λ buffer. length buffer ≡ c.max_seq_len) c.buffers

  held_cut :
      (n m : ℕ) (buffers : List (List A))
      → n ≤ m
      → map (take n) buffers ≡ map (take n) (map (take m) buffers)
  held_cut n m [] h = refl
  held_cut n m (b ∷ buffers) h = λ i. sym (take-take n m b h) i ∷ held_cut n m buffers h i

  -- Cutting a cache back keeps its first positions.
  pub held-truncate :
      (n : ℕ) (c : KvCache A)
      → IsFull c
      → n ≤ c.committed
      → (d : KvCache A) × (truncate n c ≡ some d)
        × (held d ≡ map (take n) (held c))
        × (d.committed ≡ n)
        × (d.max_seq_len ≡ c.max_seq_len)
        × IsFull d
  unfolding truncate
  held-truncate n c full le = (
    record c { committed = n },
    rw fits refl,
    held_cut n c.committed c.buffers le,
    refl,
    refl,
    (omega (arith, full.0), full.1),
  )
    where
      fits : ltb c.committed n ≡ false
      fits = ground arith

  pub length-replicate : (n : ℕ) (a : A) → length (replicate n a) ≡ n
  length-replicate zero a = refl
  length-replicate (suc n) a = omega (arith, length-replicate n a)

  length-overwrite :
      (cells buffer : List A)
      → length cells ≤ length buffer
      → length (overwrite 0 cells buffer) ≡ length buffer
  length-overwrite cells buffer h = omega (
    arith,
    length-append cells (drop (0 + length cells) buffer),
    length-drop (0 + length cells) buffer,
  )

  fork_cut :
      (n m capacity : ℕ) (empty : A) (buffers : List (List A))
      → n ≤ m
      → All (λ buffer. m ≤ length buffer) buffers
      → map
          (take n)
          (map (λ buffer. overwrite 0 (take n buffer) (replicate capacity empty)) buffers)
        ≡ map (take n) (map (take m) buffers)
  fork_cut n m capacity empty [] h full = refl
  fork_cut n m capacity empty (b ∷ buffers) h full =
      λ i. first i ∷ fork_cut n m capacity empty buffers h full.1 i
    where
      first : take n (overwrite 0 (take n b) (replicate capacity empty)) ≡ take n (take m b)
      first =
          take-prefix n (take n b) (drop (0 + length (take n b)) (replicate capacity empty))
            (length-take n b (omega (arith, full.0)))
          ∙ sym (take-take n m b h)

  fork_full :
      (n m capacity : ℕ) (empty : A) (buffers : List (List A))
      → n ≤ m
      → n ≤ capacity
      → All (λ buffer. m ≤ length buffer) buffers
      → All
          (λ buffer. length buffer ≡ capacity)
          (map (λ buffer. overwrite 0 (take n buffer) (replicate capacity empty)) buffers)
  fork_full n m capacity empty [] h k full = tt
  fork_full n m capacity empty (b ∷ buffers) h k full =
      (first, fork_full n m capacity empty buffers h k full.1)
    where
      first : length (overwrite 0 (take n b) (replicate capacity empty)) ≡ capacity
      first = omega (
        arith,
        length-overwrite (take n b) (replicate capacity empty)
            (omega (arith, short, length-replicate capacity empty)),
        length-replicate capacity empty,
      )
        where
          short : length (take n b) ≡ n
          short = length-take n b (omega (arith, full.0))

  pub enough :
      (m n : ℕ) (buffers : List (List A))
      → m ≤ n
      → All (λ buffer. length buffer ≡ n) buffers
      → All (λ buffer. m ≤ length buffer) buffers
  enough m n [] h full = tt
  enough m n (b ∷ buffers) h full = (omega (arith, full.0), enough m n buffers h full.1)

  -- A copy of the first positions of a cache holds what these held, in a cache of its own capacity.
  pub held-fork :
      (empty : A) (n : ℕ) (wanted : Option ℕ) (c : KvCache A)
      → IsFull c
      → n ≤ c.committed
      → n ≤ capacity_or wanted c.max_seq_len
      → (d : KvCache A) × (fork empty n wanted c ≡ some d)
        × (held d ≡ map (take n) (held c))
        × (d.committed ≡ n)
        × (d.max_seq_len ≡ capacity_or wanted c.max_seq_len)
        × IsFull d
  unfolding fork
  held-fork empty n wanted c full le room = (
    record {
      buffers = map (λ buffer. overwrite 0 (take n buffer) (replicate capacity empty)) c.buffers;
      max_seq_len = capacity;
      committed = n;
    },
    rw (fits, roomy) refl,
    fork_cut n c.committed capacity empty c.buffers le there,
    refl,
    refl,
    (room, fork_full n c.committed capacity empty c.buffers le room there),
  )
    where
      capacity : ℕ
      capacity = capacity_or wanted c.max_seq_len

      fits : ltb c.committed n ≡ false
      fits = ground arith

      roomy : ltb capacity n ≡ false
      roomy = ground arith

      there : All (λ buffer. c.committed ≤ length buffer) c.buffers
      there = enough c.committed c.max_seq_len c.buffers full.0 full.1

  cut_lengths :
      (n : ℕ) (buffers : List (List A))
      → All (λ buffer. n ≤ length buffer) buffers
      → All (λ cells. length cells ≡ n) (map (take n) buffers)
  cut_lengths n [] h = tt
  cut_lengths n (b ∷ buffers) h = (length-take n b h.0, cut_lengths n buffers h.1)

  all_of-lengths :
      (n : ℕ) (saved : List (List A))
      → All (λ cells. length cells ≡ n) saved
      → all_of (λ cells. eqb (length cells) n) saved ≡ true
  all_of-lengths n [] h = refl
  all_of-lengths n (cells ∷ saved) h = ground (arith, h.0, all_of-lengths n saved h.1)

  saved_length-cut :
      (n : ℕ) (buffers : List (List A))
      → 0 < length buffers
      → All (λ buffer. n ≤ length buffer) buffers
      → saved_length (map (take n) buffers) ≡ n
  saved_length-cut n [] some_layer h = absurd (omega arith)
  saved_length-cut n (b ∷ buffers) some_layer h = length-take n b h.0

  load_cut :
      (n : ℕ) (saved buffers : List (List A))
      → length saved ≡ length buffers
      → All (λ cells. length cells ≡ n) saved
      → map (take n) (zip_with (overwrite 0) saved buffers) ≡ saved
  load_cut n [] buffers same h = refl
  load_cut n (cells ∷ saved) [] same h = absurd (omega arith)
  load_cut n (cells ∷ saved) (b ∷ buffers) same h = λ i.
      take-prefix n cells (drop (0 + length cells) b) h.0 i
      ∷ load_cut n saved buffers (omega arith) h.1 i

  -- If every buffer has the capacity and there is a layer, the first positions of a cache are
  -- exported, and loaded into a cache of as many layers with room for them, they are the positions
  -- that it holds.
  pub load-export :
      (n : ℕ) (c d : KvCache A)
      → IsFull c
      → 0 < length c.buffers
      → length d.buffers ≡ length c.buffers
      → n ≤ c.committed
      → n ≤ d.max_seq_len
      → (saved : List (List A)) × (export n c ≡ some saved)
        × (e : KvCache A) × (load saved d ≡ some e)
        × (held e ≡ map (take n) (held c))
        × (e.committed ≡ n)
  unfolding export load
  load-export n c d full some_layer same within room = (
    map (take n) c.buffers,
    rw fits refl,
    record d { buffers = zip_with (overwrite 0) (map (take n) c.buffers) d.buffers; committed = n },
    rw (long, layers, roomy, all_of-lengths n (map (take n) c.buffers) lengths) refl,
    load_cut n (map (take n) c.buffers) d.buffers layered lengths
        ∙ held_cut n c.committed c.buffers within,
    refl,
  )
    where
      fits : ltb c.committed n ≡ false
      fits = ground arith

      roomy : ltb d.max_seq_len n ≡ false
      roomy = ground arith

      there : All (λ buffer. n ≤ length buffer) c.buffers
      there = enough n c.max_seq_len c.buffers (omega (arith, full.0)) full.1

      lengths : All (λ cells. length cells ≡ n) (map (take n) c.buffers)
      lengths = cut_lengths n c.buffers there

      long : saved_length (map (take n) c.buffers) ≡ n
      long = saved_length-cut n c.buffers some_layer there

      layered : length (map (take n) c.buffers) ≡ length d.buffers
      layered = omega (arith, length-map (take n) c.buffers)

      layers : eqb (length (map (take n) c.buffers)) (length d.buffers) ≡ true
      layers = ground (arith, layered)

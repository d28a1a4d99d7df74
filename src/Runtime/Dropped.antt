-- ===== src/Runtime/Dropped.antt =====
-- What the cells of a cache are after `drop_range` (app/runtime/kv_cache.py).
use matricxon.Base.Slices.{
  drop-take, length-slice, length-map, take-prefix, take-take, length-take, take-past,
}
use matricxon.Base.{
  unguard, subst, ◌∙◌, sym, ℕ, ◌+◌, ◌-◌, ◌≤◌, ◌≡◌, List, [], ◌∷◌, ◌++◌, map, some, length, take,
  drop, arith, All, ap, refl, of_some, ltb, eqb, not, ◌||◌,
}
use matricxon.Runtime.KvCache.{KvCache, held, drop_range, zip_with, close_gap}
use matricxon.Runtime.Held.{IsFull, enough}

module _ {A : Type 0} where
  module _ {R : Type 0} (turn : R → A → A) where
    -- The cells of a layer without the gap, those after it turned.
    abbrev pub without_gap : ℕ → ℕ → R → List A → List A
    without_gap start count rotation cells =
        take start cells ++ map (turn rotation) (drop (start + count) cells)

    close_gap_lem :
        (end start count : ℕ) (rotation : R) (buffer : List A)
        → start + count ≤ end
        → end ≤ length buffer
        → take (end - count) (close_gap turn end start count rotation buffer)
          ≡ without_gap start count rotation (take end buffer)
    close_gap_lem end start count rotation buffer within room =
        ap (λ k. take k (take start buffer ++ (moved ++ rest))) split
        ∙ take-past start (end - (start + count)) (take start buffer) (moved ++ rest)
            (length-take start buffer (omega arith))
        ∙ ap (λ cells. take start buffer ++ cells)
            (take-prefix (end - (start + count)) moved rest short)
        ∙ ap (λ cells. cells ++ moved) (sym (take-take start end buffer (omega arith)))
        ∙ ap (λ cells. take start (take end buffer) ++ map (turn rotation) cells)
            (sym (drop-take (start + count) end buffer))
      where
        moved : List A
        moved = map (turn rotation) (take (end - (start + count)) (drop (start + count) buffer))

        rest : List A
        rest = drop (start + length moved) buffer

        split : end - count ≡ start + (end - (start + count))
        split = omega arith

        short : length moved ≡ end - (start + count)
        short =
            length-map (turn rotation) (take (end - (start + count)) (drop (start + count) buffer))
            ∙ length-slice (start + count) (end - (start + count)) buffer (omega arith)

    close_gaps :
        (end start count : ℕ) (rotations : List R) (buffers : List (List A))
        → start + count ≤ end
        → All (λ buffer. end ≤ length buffer) buffers
        → map (take (end - count)) (zip_with (close_gap turn end start count) rotations buffers)
          ≡ zip_with (without_gap start count) rotations (map (take end) buffers)
    close_gaps end start count [] buffers within room = refl
    close_gaps end start count (r ∷ rotations) [] within room = refl
    close_gaps end start count (r ∷ rotations) (b ∷ buffers) within room = λ i.
        close_gap_lem end start count r b within room.0 i
        ∷ close_gaps end start count rotations buffers within room.1 i

    -- If every buffer has the capacity, dropping a range keeps the cells before it and turns each
    -- layer's cells after it, and the committed length is less by as many positions.
    pub held-drop_range :
        (start count : ℕ) (rotations : List R) (c d : KvCache A)
        → IsFull c
        → drop_range turn start count rotations c ≡ some d
        → (held d ≡ zip_with (without_gap start count) rotations (held c))
          × (d.committed + count ≡ c.committed)
    unfolding drop_range
    held-drop_range start count rotations c d full h =
        let moved : KvCache A = record c {
          buffers = zip_with (close_gap turn c.committed start count) rotations c.buffers;
          committed = c.committed - count;
        } in
        let passed =
          unguard
            (eqb count 0
              || ltb c.committed (start + count)
              || not (eqb (length rotations) (length c.buffers)))
            (some moved) d h in
        subst
          (λ (e : KvCache A).
            (held e ≡ zip_with (without_gap start count) rotations (held c))
            × (e.committed + count ≡ c.committed))
          (of_some passed.1)
          (
            close_gaps c.committed start count rotations c.buffers (ground (arith, passed.0))
                (enough c.committed c.max_seq_len c.buffers full.0 full.1),
            ground (arith, passed.0),
          )

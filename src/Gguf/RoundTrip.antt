-- ===== src/Gguf/RoundTrip.antt =====
-- A file that is written from its parts is read back to them.
use mathlib.Core.List.{append_assoc, append-nil}
use matricxon.Base.{
  if◌then◌else◌, beq-cases, In→contains, ℕ, ◌+◌, ◌^◌, ◌<◌, ◌≡◌, List, [], ◌∷◌, ◌++◌, Bool, false,
  some, length, length-append, refl, arith, sym, ap, ◌∙◌, subst, In, Distinct, ◌==◌, inl, inr,
}
use matricxon.Base.Dict.{keys, get, has, put-fresh, has-snoc}
use matricxon.Gguf.Parser.{
  Parser, ok, pure, fail, then_read, Reads, Reads-pure, Reads-bind, Reads-map, Reads-repeat, repeat,
  concat_map, Reads-read_bytes, bad_magic,
}
use matricxon.Gguf.Number.{little, read_unsigned, Reads-unsigned}
use matricxon.Gguf.Value.{
  ValueType, boolean, string, array, Value, scalar, flag, text, items, number_of, read_type,
  read_text, read_value,
}
use matricxon.Gguf.Written.{
  written_text, IsText, written, IsValue, Reads-type, Reads-text, Reads-value, depth-le-written,
}
use matricxon.Gguf.Metadata.{bytes_discrete, codes, bytes_eq, Metadata}
use matricxon.Gguf.Reader.{
  TensorInfo, check_magic, align, alignment_of, read_entry, read_metadata, read_info, finish,
  read_file, read,
}

abbrev pub type_of : Value → ValueType
type_of (scalar t n) = t
type_of (flag b) = boolean
type_of (text bytes) = string
type_of (items t vs) = array

abbrev pub written_entry : List ℕ × Value → List ℕ
written_entry (key, v) = written_text key ++ (little 4 (number_of (type_of v)) ++ written v)

abbrev pub written_info : TensorInfo → List ℕ
written_info t =
    written_text t.name
    ++ (little 4 (length t.shape)
        ++ (concat_map (little 8) t.shape ++ (little 4 t.ggml_type ++ little 8 t.offset)))

-- A file, with the data of its tensors behind the header.
abbrev pub written_file : Metadata → List TensorInfo → List ℕ → List ℕ
written_file metadata infos data_bytes =
    codes "GGUF"
    ++ (little 4 3
        ++ (little 8 (length infos)
            ++ (little 8 (length metadata)
                ++ (concat_map written_entry metadata
                    ++ (concat_map written_info infos ++ data_bytes)))))

abbrev pub header_size : Metadata → List TensorInfo → ℕ
header_size metadata infos =
    24 + length (concat_map written_entry metadata) + length (concat_map written_info infos)

pub bind_step {ℓ κ} :
    {A : Type ℓ} {B : Type κ} (p : Parser A) (k : A → Parser B) (xs ys : List ℕ) (pos : ℕ) (a : A)
    → Reads p xs a
    → then_read (p (record { pos = pos; rest = xs ++ ys })) k
      ≡ k a (record { pos = pos + length xs; rest = ys })
bind_step p k xs ys pos a first = ap (λ r. then_read r k) (first pos ys)

-- What a file can hold.
abbrev pub IsEntry : (List ℕ → Bool) → List ℕ × Value → Type 0
IsEntry decodes (key, v) = IsText decodes key × IsValue decodes (type_of v) v

pub record IsInfo (decodes : List ℕ → Bool) (t : TensorInfo) : Type 0 where
  pub name : IsText decodes t.name
  pub dims : length t.shape < 256 ^ 4
  pub sizes : (n : ℕ) → In n t.shape → n < 256 ^ 8
  pub ggml_type : t.ggml_type < 256 ^ 4
  pub offset : t.offset < 256 ^ 8

module _ (decodes : List ℕ → Bool) where
  -- A value with the rest of the file as fuel.
  Reads-with_rest :
      (v : Value)
      → IsValue decodes (type_of v) v
      → Reads (λ f. read_value decodes (length f.rest) (type_of v) f) (written v) v
  Reads-with_rest v good pos rest =
      Reads-value decodes v (length (written v ++ rest)) (type_of v)
        (omega (arith, depth-le-written v, length-append (written v) rest)) good pos rest

  Reads-entry :
      (e : List ℕ × Value) → IsEntry decodes e → Reads (read_entry decodes) (written_entry e) e
  unfolding read_entry
  Reads-entry (key, v) (good, fits) =
      Reads-bind (read_text decodes) _ (written_text key)
        (little 4 (number_of (type_of v)) ++ written v) key (key, v) (Reads-text decodes key good)
        (Reads-bind read_type _ (little 4 (number_of (type_of v))) (written v) (type_of v) (key, v)
          (Reads-type (type_of v))
          (Reads-map (λ f. read_value decodes (length f.rest) (type_of v) f) (λ w. (key, w))
            (written v) v (Reads-with_rest v fits)))

  Reads-info : (t : TensorInfo) → IsInfo decodes t → Reads (read_info decodes) (written_info t) t
  unfolding read_info
  Reads-info t good =
      Reads-bind (read_text decodes) _ (written_text t.name) _ t.name t
        (Reads-text decodes t.name good.name)
        (Reads-bind (read_unsigned 4) _ (little 4 (length t.shape)) _ (length t.shape) t
          (Reads-unsigned 4 (length t.shape) good.dims)
          (Reads-bind (repeat (length t.shape) (read_unsigned 8)) _ (concat_map (little 8) t.shape)
            _ t.shape t
            (Reads-repeat (read_unsigned 8) (little 8) t.shape
              (λ n m. Reads-unsigned 8 n (good.sizes n m)))
            (Reads-bind (read_unsigned 4) _ (little 4 t.ggml_type) (little 8 t.offset) t.ggml_type t
              (Reads-unsigned 4 t.ggml_type good.ggml_type)
              (Reads-map (read_unsigned 8)
                (λ o. record {
                  name = t.name;
                  shape = t.shape;
                  ggml_type = t.ggml_type;
                  offset = o;
                })
                (little 8 t.offset) t.offset (Reads-unsigned 8 t.offset good.offset)))))

  -- The dictionary after some entries: they stand at its end, in their order.
  abbrev FreshFor : Metadata → Metadata → Type 0
  FreshFor values [] = Unit
  FreshFor values ((key, v) ∷ es) =
      (has key values ≡ false) × FreshFor (values ++ ((key, v) ∷ [])) es

  Reads-metadata :
      (es values : Metadata)
      → ((e : List ℕ × Value) → In e es → IsEntry decodes e)
      → FreshFor values es
      → Reads
          (read_metadata decodes (length es) values)
          (concat_map written_entry es)
          (values ++ es)
  unfolding read_metadata
  Reads-metadata [] values each fresh =
      subst (λ d. Reads (pure values) [] d) (sym (append-nil values)) (Reads-pure values)
  Reads-metadata ((key, v) ∷ es) values each (new, fresh) =
      Reads-bind (read_entry decodes) _ (written_entry (key, v)) (concat_map written_entry es)
        (key, v) (values ++ ((key, v) ∷ es)) (Reads-entry (key, v) (each (key, v) (inl refl)))
        (subst
          (λ d.
            Reads (read_metadata decodes (length es) d) (concat_map written_entry es)
              (values ++ ((key, v) ∷ es)))
          (sym (put-fresh key v values new))
          (subst
            (λ d.
              Reads (read_metadata decodes (length es) (values ++ ((key, v) ∷ [])))
                (concat_map written_entry es) d)
            (append_assoc values ((key, v) ∷ []) es)
            (Reads-metadata es (values ++ ((key, v) ∷ [])) (λ e m. each e (inr m)) fresh)))

  fresh-Distinct :
      (es values : Metadata)
      → Distinct (keys es)
      → ((k : List ℕ) → In k (keys es) → has k values ≡ false)
      → FreshFor values es
  fresh-Distinct [] values distinct new = tt
  fresh-Distinct ((key, v) ∷ es) values (once, distinct) new = (
    new key (inl refl),
    fresh-Distinct es (values ++ ((key, v) ∷ [])) distinct
        (λ k m. has-snoc k key v values ∙ ground (arith, new k (inr m), other k m)),
  )
    where
      other : (k : List ℕ) → In k (keys es) → (key == k) ≡ false
      other k m = elim (beq-cases key k) [
        | inl p ↦ absurd (cc (In→contains key (keys es) (subst (λ x. In x (keys es)) (sym p) m)))
        | inr q ↦ q
      ]

  pub Reads-magic : Reads check_magic (codes "GGUF") tt
  unfolding check_magic bytes_discrete
  Reads-magic pos rest =
      ap (λ r. then_read r (λ magic. if magic == codes "GGUF" then pure tt else fail bad_magic))
        (Reads-read_bytes (codes "GGUF") pos rest)
      ∙ refl

  -- A file made of metadata with distinct keys and of a table of tensors, all within the widths of
  -- the format and with an alignment that is a positive whole number, is read back as exactly these,
  -- with the start of the data at the aligned end of the table, and the data is left unread.
  pub read-written_file :
      (metadata : Metadata) (infos : List TensorInfo) (data_bytes : List ℕ) (alignment : ℕ)
      → length metadata < 256 ^ 8
      → length infos < 256 ^ 8
      → ((e : List ℕ × Value) → In e metadata → IsEntry decodes e)
      → Distinct (keys metadata)
      → ((t : TensorInfo) → In t infos → IsInfo decodes t)
      → alignment_of (get (codes "general.alignment") metadata) ≡ some alignment
      → read decodes (written_file metadata infos data_bytes)
        ≡ ok (
          record {
            version = 3;
            metadata = metadata;
            tensor_infos = infos;
            data_start_offset = align (header_size metadata infos) alignment;
          },
          record { pos = header_size metadata infos; rest = data_bytes },
        )
  unfolding read read_file finish
  read-written_file metadata infos data_bytes alignment few few' entries distinct tensors aligned =
      bind_step check_magic _ (codes "GGUF") _ 0 tt Reads-magic
      ∙ bind_step (read_unsigned 4) _ (little 4 3) _ 4 3 (Reads-unsigned 4 3 (omega arith))
      ∙ bind_step (read_unsigned 8) _ (little 8 (length infos)) _ 8 (length infos)
          (Reads-unsigned 8 (length infos) few')
      ∙ bind_step (read_unsigned 8) _ (little 8 (length metadata)) _ 16 (length metadata)
          (Reads-unsigned 8 (length metadata) few)
      ∙ bind_step (read_metadata decodes (length metadata) []) _ (concat_map written_entry metadata)
          _ 24 metadata
          (Reads-metadata metadata [] entries
            (fresh-Distinct metadata [] distinct (λ k m. unfold has in refl)))
      ∙ bind_step (repeat (length infos) (read_info decodes)) _ (concat_map written_info infos)
          data_bytes (24 + length (concat_map written_entry metadata)) infos
          (Reads-repeat (read_info decodes) written_info infos (λ t m. Reads-info t (tensors t m)))
      ∙ rw (aligned, finish)

-- ===== src/Gguf/Fuel.antt =====
-- The fuel of `read_value` (app/gguf/reader.py): each level of arrays takes some bytes.
use matricxon.Base.{
  not, ◌-◌, ℕ, zero, suc, ◌+◌, ◌≤◌, ◌≡◌, ◌≢◌, List, [], ◌∷◌, Bool, true, false, Option, none, some,
  length, take, drop, arith, eqb, if◌then◌else◌, Bool-cases, inl, inr, ◌==◌,
}
use matricxon.Base.Dict.{get, put}
use matricxon.Gguf.Value.{
  text, from_list, items, flag, ValueType, boolean, string, array, type_of_number, width_of, Value,
  scalar, read_type, read_scalar, read_text, read_value,
}
use matricxon.Gguf.Reader.{
  ParsedGguf, TensorInfo, check_magic, alignment_of, align, read_entry, read_metadata, read_info,
  finish, read_file, read,
}
use matricxon.Gguf.Parser.{
  out_of_fuel, bad_magic, bad_version, bad_type, bad_text, no_scalar, bad_alignment, Result, ok,
  err, File, Parser, ◌>>=◌, pure, fail, then_read, read_bytes, repeat,
}
use matricxon.Gguf.Number.{read_unsigned}
use matricxon.Gguf.Metadata.{Metadata, bytes_eq, codes}

-- A read that has not run out of fuel, took at least `w` bytes and began with at most `n`.
abbrev Fine {ℓ} : {A : Type ℓ} → ℕ → ℕ → Result (A × File) → Type 0
Fine w n (ok (a, g)) = w + length g.rest ≤ n
Fine w n (err e) = e ≡ out_of_fuel → ⊥

abbrev Good {ℓ} : {A : Type ℓ} → ℕ → Parser A → Type 0
Good n p = (f : File) → length f.rest ≤ n → Fine 0 n (p f)

Fine-then {ℓ κ} :
    {A : Type ℓ} {B : Type κ} (w n : ℕ) (r : Result (A × File)) (k : A → Parser B)
    → Fine w n r
    → ((a : A) (g : File) → w + length g.rest ≤ n → Fine 0 n (k a g))
    → Fine 0 n (then_read r k)
Fine-then w n (ok (a, g)) k h each = each a g h
Fine-then w n (err e) k h each = h

Fine-le {ℓ} :
    {A : Type ℓ} (v w m n : ℕ) (r : Result (A × File)) → v + m ≤ w + n → Fine w m r → Fine v n r
Fine-le v w m n (ok (a, g)) l h = omega arith
Fine-le v w m n (err e) l h = h

Good-bind {ℓ κ} :
    {A : Type ℓ} {B : Type κ} (n : ℕ) (p : Parser A) (k : A → Parser B)
    → Good n p
    → ((a : A) → Good n (k a))
    → Good n (p >>= k)
Good-bind n p k good each f h = Fine-then 0 n (p f) k (good f h) (λ a g l. each a g (omega arith))

Good-pure {ℓ} : {A : Type ℓ} (n : ℕ) (a : A) → Good n (pure a)
Good-pure n a f h = omega arith

length-drop {ℓ} :
    {A : Type ℓ} (n : ℕ) (xs : List A) → length (take n xs) + length (drop n xs) ≡ length xs
length-drop zero xs = omega arith
length-drop (suc n) [] = omega arith
length-drop (suc n) (x ∷ xs) = omega (arith, length-drop n xs)

-- A number of some width takes as many bytes.
Fine-unsigned : (w n : ℕ) (f : File) → length f.rest ≤ n → Fine w n (read_unsigned w f)
unfolding read_unsigned read_bytes
Fine-unsigned w n f h = elim (Bool-cases (eqb (length (take w f.rest)) w)) [
  | inl e ↦ rw (e, then_read) (ground (arith, length-drop w f.rest))
  | inr e ↦ rw (e, then_read) (λ p. cc)
]

Good-unsigned : (w n : ℕ) → Good n (read_unsigned w)
Good-unsigned w n f h = Fine-le 0 w n n (read_unsigned w f) (omega arith) (Fine-unsigned w n f h)

Good-read_bytes : (k n : ℕ) → Good n (read_bytes k)
unfolding read_bytes
Good-read_bytes k n f h = omega (arith, length-drop k f.rest)

Good-repeat {ℓ} : {A : Type ℓ} (n count : ℕ) (p : Parser A) → Good n p → Good n (repeat count p)
unfolding repeat
Good-repeat n zero p good f h = omega arith
Good-repeat n (suc count) p good f h =
    Good-bind n p (λ a. repeat count p >>= λ more. pure (a ∷ more)) good
      (λ a.
        Good-bind n (repeat count p) (λ more. pure (a ∷ more)) (Good-repeat n count p good)
          (λ more. Good-pure n (a ∷ more)))
      f h

Fine-type : (n : ℕ) (f : File) → length f.rest ≤ n → Fine 4 n (read_type f)
unfolding read_type
Fine-type n f h = then_typed (read_unsigned 4 f) (Fine-unsigned 4 n f h)
  where
    typed :
        (o : Option ValueType) (g : File)
        → 4 + length g.rest ≤ n
        → Fine {A = ValueType} 4 n
            ((elim o as (λ _. Parser ValueType) [ none ↦ fail bad_type | some t ↦ pure t ]) g)
    typed none g h = λ p. cc
    typed (some t) g h = h

    then_typed :
        (r : Result (ℕ × File))
        → Fine 4 n r
        → Fine {A = ValueType} 4 n
            (then_read r (λ k. elim (type_of_number k) [ none ↦ fail bad_type | some t ↦ pure t ]))
    then_typed (ok (k, g)) h = typed (type_of_number k) g h
    then_typed (err e) h = h

Good-scalar : (n : ℕ) (t : ValueType) → Good n (read_scalar t)
unfolding read_scalar
Good-scalar n t = sized (width_of t)
  where
    sized :
        (o : Option ℕ)
        → Good {A = Value} n (elim o as (λ _. Parser Value) [
          | none ↦ fail no_scalar
          | some width ↦ read_unsigned width >>= λ k. pure (scalar t k)
        ])
    sized none f h = λ p. cc
    sized (some w) f h =
        Good-bind n (read_unsigned w) (λ k. pure (scalar t k)) (Good-unsigned w n)
          (λ k. Good-pure n (flag (not (eqb k 0)))) f h

module _ (decodes : List ℕ → Bool) where
  Good-text : (n : ℕ) → Good n (read_text decodes)
  unfolding read_text
  Good-text n = Good-bind n (read_unsigned 8) _ (Good-unsigned 8 n) (λ k.
      Good-bind n (read_bytes k) _ (Good-read_bytes k n) (λ bytes. decoded bytes (decodes bytes)))
    where
      decoded :
          (bytes : List ℕ) (b : Bool)
          → Good {A = List ℕ} n (if b then pure bytes else fail bad_text)
      decoded bytes true f h = omega arith
      decoded bytes false f h = λ p. cc

  -- A value whose arrays are nested no deeper than the bytes that are left.
  Good-value : (fuel n : ℕ) (t : ValueType) → n ≤ fuel → Good n (read_value decodes fuel t)
  unfolding read_value read_scalar
  Good-value zero n array le f h =
      Fine-then 4 n (read_type f) _ (Fine-type n f h) λ t g l. absurd (omega arith)
  Good-value (suc fuel) n array le f h = Fine-then 4 n (read_type f) _ (Fine-type n f h) λ t g l.
      Fine-le 0 0 (n - 4) n _ (omega arith) (
        Good-bind (n - 4) (read_unsigned 8) _ (Good-unsigned 8 (n - 4))
          (λ count.
            Good-bind (n - 4) (repeat count (read_value decodes fuel t)) _
              (Good-repeat (n - 4) count _ (Good-value fuel (n - 4) t (omega arith)))
              (λ vs. Good-pure (n - 4) (items t (from_list vs))))
          g (omega arith))
  Good-value fuel n string le f h =
      Good-bind n (read_text decodes) _ (Good-text n) (λ bytes. Good-pure n (text bytes)) f h
  Good-value fuel n boolean le f h =
      Good-bind n (read_unsigned 1) _ (Good-unsigned 1 n) (λ k. Good-pure n (flag (not (eqb k 0))))
        f h
  Good-value fuel n t le f h = Good-scalar n t f h

  Good-entry : (n : ℕ) → Good n (read_entry decodes)
  unfolding read_entry
  Good-entry n = Good-bind n (read_text decodes) _ (Good-text n) λ key.
      Good-bind n read_type _ Good-read_type λ t.
        Good-bind n (λ f. read_value decodes (length f.rest) t f) _
          (λ f h.
            Fine-le 0 0 (length f.rest) n _ (omega arith)
              (Good-value (length f.rest) (length f.rest) t (omega arith) f (omega arith)))
          (λ v. Good-pure {A = List ℕ × Value} n (key, v))
    where
      Good-read_type : Good n read_type
      Good-read_type f h = Fine-le 0 4 n n (read_type f) (omega arith) (Fine-type n f h)

  Good-metadata : (n count : ℕ) (values : Metadata) → Good n (read_metadata decodes count values)
  unfolding read_metadata
  Good-metadata n zero values f h = omega arith
  Good-metadata n (suc count) values f h =
      Good-bind n (read_entry decodes) (λ e. read_metadata decodes count (put e.0 e.1 values))
        (Good-entry n) (λ e. Good-metadata n count (put e.0 e.1 values)) f h

  Good-info : (n : ℕ) → Good n (read_info decodes)
  unfolding read_info
  Good-info n = Good-bind n (read_text decodes) _ (Good-text n) λ name.
      Good-bind n (read_unsigned 4) _ (Good-unsigned 4 n) λ n_dims.
        Good-bind n (repeat n_dims (read_unsigned 8)) _ (Good-repeat n n_dims _ (Good-unsigned 8 n))
          λ shape. Good-bind n (read_unsigned 4) _ (Good-unsigned 4 n) λ ggml_type.
            Good-bind n (read_unsigned 8) _ (Good-unsigned 8 n) λ offset.
              Good-pure {A = TensorInfo} n
                (record { name = name; shape = shape; ggml_type = ggml_type; offset = offset })

  Good-finish :
      (n : ℕ) (metadata : Metadata) (infos : List TensorInfo)
      → Good n (finish decodes metadata infos)
  unfolding finish
  Good-finish n metadata infos = aligned (alignment_of (get (codes "general.alignment") metadata))
    where
      aligned :
          (o : Option ℕ)
          → Good {A = ParsedGguf} n (λ f. elim o [
            | none ↦ err bad_alignment
            | some alignment ↦ ok (
              record {
                version = 3;
                metadata = metadata;
                tensor_infos = infos;
                data_start_offset = align f.pos alignment;
              },
              f,
            )
          ])
      aligned none f h = λ p. cc
      aligned (some a) f h = omega arith

  Good-magic : (n : ℕ) → Good n check_magic
  unfolding check_magic
  Good-magic n =
      Good-bind n (read_bytes 4) _ (Good-read_bytes 4 n) λ magic. checked (magic == codes "GGUF")
    where
      checked : (b : Bool) → Good {A = Unit {0}} n (if b then pure tt else fail bad_magic)
      checked true f h = omega arith
      checked false f h = λ p. cc

  Good-file : (n : ℕ) → Good n (read_file decodes)
  unfolding read_file
  Good-file n =
      Good-bind n check_magic _ (Good-magic n) λ _.
        Good-bind n (read_unsigned 4) _ (Good-unsigned 4 n) λ version. versioned (eqb version 3)
    where
      versioned :
          (b : Bool)
          → Good {A = ParsedGguf} n (
              if b
              then (read_unsigned 8 >>= λ tensor_count. read_unsigned 8 >>= λ kv_count.
                  read_metadata decodes kv_count [] >>= λ metadata.
                  repeat tensor_count (read_info decodes) >>= λ infos.
                  finish decodes metadata infos)
              else fail bad_version)
      versioned true = Good-bind n (read_unsigned 8) _ (Good-unsigned 8 n) λ tensor_count.
          Good-bind n (read_unsigned 8) _ (Good-unsigned 8 n) λ kv_count.
            Good-bind n (read_metadata decodes kv_count []) _ (Good-metadata n kv_count [])
              λ metadata.
                Good-bind n (repeat tensor_count (read_info decodes)) _
                  (Good-repeat n tensor_count _ (Good-info n)) λ infos. Good-finish n metadata infos
      versioned false = λ f h p. cc

  -- Reading any bytes ends with a header or with one of the errors of the source: the fuel for the
  -- arrays in a value, as many levels as the file has bytes left, does not run out.
  pub read_enough : (bytes : List ℕ) → read decodes bytes ≢ err out_of_fuel
  unfolding read
  read_enough bytes = ended (read_file decodes start) (Good-file (length bytes) start (omega arith))
    where
      start : File
      start = record { pos = 0; rest = bytes }

      ended : (r : Result (ParsedGguf × File)) → Fine 0 (length bytes) r → r ≢ err out_of_fuel
      ended (ok x) h p = cc
      ended (err e) h p = h cc

-- ===== src/Gguf/Written.antt =====
-- How a file holds a value, and that the value readers read it back.
use matricxon.Base.{
  length-append, ℕ, zero, suc, ◌^◌, ◌<◌, ◌≤◌, ◌≡◌, List, [], ◌∷◌, ◌++◌, Bool, true, false, not,
  Option, none, some, length, refl, arith, eqb, if◌then◌else◌, max, sym, subst, ap, ◌∙◌,
}
use matricxon.Gguf.Parser.{
  ◌>>=◌, pure, fail, then_read, repeat, Reads, Reads-pure, Reads-bind, Reads-map, read_bytes,
  Reads-read_bytes, bad_text, bad_type,
}
use matricxon.Gguf.Number.{length-little, little, read_unsigned, Reads-unsigned}
use matricxon.Gguf.Value.{
  ValueType, uint8, int8, uint16, int16, uint32, int32, float32, boolean, string, array, uint64,
  int64, float64, number_of, type_of_number, width_of, Value, scalar, flag, text, items, Values,
  nil, cons, from_list, read_type, read_scalar, read_text, read_value,
}

abbrev pub written_text : List ℕ → List ℕ
written_text bytes = little 8 (length bytes) ++ bytes

abbrev count : Values → ℕ
count nil = 0
count (cons v vs) = suc (count vs)

abbrev to_list : Values → List Value
to_list nil = []
to_list (cons v vs) = v ∷ to_list vs

from_list-to_list : (vs : Values) → from_list (to_list vs) ≡ vs
from_list-to_list nil = refl
from_list-to_list (cons v vs) = ap (cons v) (from_list-to_list vs)

abbrev width_or : Option ℕ → ℕ
width_or none = 0
width_or (some w) = w

abbrev mutual
  pub written : Value → List ℕ
  written (scalar t n) = little (width_or (width_of t)) n
  written (flag b) = (if b then 1 else 0) ∷ []
  written (text bytes) = written_text bytes
  written (items t vs) = little 4 (number_of t) ++ (little 8 (count vs) ++ written_all vs)

  pub written_all : Values → List ℕ
  written_all nil = []
  written_all (cons v vs) = written v ++ written_all vs

-- How deep arrays stand in arrays.
abbrev mutual
  pub depth : Value → ℕ
  depth (scalar t n) = 0
  depth (flag b) = 0
  depth (text bytes) = 0
  depth (items t vs) = suc (depth_all vs)

  pub depth_all : Values → ℕ
  depth_all nil = 0
  depth_all (cons v vs) = max (depth v) (depth_all vs)

-- A value of a type that a file can hold: numbers fit their width, texts decode, and lengths fit 64
-- bits.
abbrev pub IsText : (List ℕ → Bool) → List ℕ → Type 0
IsText decodes bytes = (decodes bytes ≡ true) × (length bytes < 256 ^ 8)

abbrev mutual
  pub IsValue : (List ℕ → Bool) → ValueType → Value → Type 0
  IsValue decodes t (scalar t' n) = (t ≡ t') × ((w : ℕ) × (width_of t ≡ some w) × (n < 256 ^ w))
  IsValue decodes t (flag b) = t ≡ boolean
  IsValue decodes t (text bytes) = (t ≡ string) × IsText decodes bytes
  IsValue decodes t (items t' vs) = (t ≡ array) × (count vs < 256 ^ 8) × AreValues decodes t' vs

  pub AreValues : (List ℕ → Bool) → ValueType → Values → Type 0
  AreValues decodes t nil = Unit
  AreValues decodes t (cons v vs) = IsValue decodes t v × AreValues decodes t vs

type_of_number-number_of : (t : ValueType) → type_of_number (number_of t) ≡ some t
unfolding type_of_number
type_of_number-number_of uint8 = refl
type_of_number-number_of int8 = refl
type_of_number-number_of uint16 = refl
type_of_number-number_of int16 = refl
type_of_number-number_of uint32 = refl
type_of_number-number_of int32 = refl
type_of_number-number_of float32 = refl
type_of_number-number_of boolean = refl
type_of_number-number_of string = refl
type_of_number-number_of array = refl
type_of_number-number_of uint64 = refl
type_of_number-number_of int64 = refl
type_of_number-number_of float64 = refl

number_of-lt : (t : ValueType) → number_of t < 256 ^ 4
number_of-lt uint8 = omega arith
number_of-lt int8 = omega arith
number_of-lt uint16 = omega arith
number_of-lt int16 = omega arith
number_of-lt uint32 = omega arith
number_of-lt int32 = omega arith
number_of-lt float32 = omega arith
number_of-lt boolean = omega arith
number_of-lt string = omega arith
number_of-lt array = omega arith
number_of-lt uint64 = omega arith
number_of-lt int64 = omega arith
number_of-lt float64 = omega arith

pub Reads-type : (t : ValueType) → Reads read_type (little 4 (number_of t)) t
unfolding read_type
Reads-type t pos rest =
    ap
      (λ r. then_read r (λ n. elim (type_of_number n) [ none ↦ fail bad_type | some t' ↦ pure t' ]))
      (Reads-unsigned 4 (number_of t) (number_of-lt t) pos rest)
    ∙ rw (type_of_number-number_of t, then_read)

pub Reads-text :
    (decodes : List ℕ → Bool) (bytes : List ℕ)
    → IsText decodes bytes
    → Reads (read_text decodes) (written_text bytes) bytes
unfolding read_text
Reads-text decodes bytes (good, short) =
    Reads-bind (read_unsigned 8) _ (little 8 (length bytes)) bytes (length bytes) bytes
      (Reads-unsigned 8 (length bytes) short) decoded
  where
    decoded :
        Reads
          (read_bytes (length bytes) >>= λ b. if decodes b then pure b else fail bad_text)
          bytes
          bytes
    decoded pos rest =
        ap (λ r. then_read r (λ b. if decodes b then pure b else fail bad_text))
          (Reads-read_bytes bytes pos rest)
        ∙ rw good

-- A type with a layout is read by it, whatever the fuel.
read_value-scalar :
    (decodes : List ℕ → Bool) (fuel : ℕ) (t : ValueType) (w : ℕ)
    → width_of t ≡ some w
    → read_value decodes fuel t ≡ read_scalar t
unfolding read_value
read_value-scalar decodes fuel uint8 w h = refl
read_value-scalar decodes fuel int8 w h = refl
read_value-scalar decodes fuel uint16 w h = refl
read_value-scalar decodes fuel int16 w h = refl
read_value-scalar decodes fuel uint32 w h = refl
read_value-scalar decodes fuel int32 w h = refl
read_value-scalar decodes fuel float32 w h = refl
read_value-scalar decodes fuel uint64 w h = refl
read_value-scalar decodes fuel int64 w h = refl
read_value-scalar decodes fuel float64 w h = refl
read_value-scalar decodes fuel boolean w h = absurd (cc)
read_value-scalar decodes fuel string w h = absurd (cc)
read_value-scalar decodes fuel array w h = absurd (cc)

Reads-scalar :
    (t : ValueType) (w n : ℕ)
    → width_of t ≡ some w
    → n < 256 ^ w
    → Reads (read_scalar t) (little (width_or (width_of t)) n) (scalar t n)
unfolding read_scalar
Reads-scalar t w n h small =
    rw (h, read_scalar)
      (Reads-map (read_unsigned w) (scalar t) (little w n) n (Reads-unsigned w n small))

Reads-flag :
    (decodes : List ℕ → Bool) (fuel : ℕ) (b : Bool)
    → Reads (read_value decodes fuel boolean) (written (flag b)) (flag b)
unfolding read_value
Reads-flag decodes fuel true =
    Reads-map (read_unsigned 1) (λ n. flag (not (eqb n 0))) (1 ∷ []) 1
      (Reads-unsigned 1 1 (omega arith))
Reads-flag decodes fuel false =
    Reads-map (read_unsigned 1) (λ n. flag (not (eqb n 0))) (0 ∷ []) 0
      (Reads-unsigned 1 0 (omega arith))

Reads-text_value :
    (decodes : List ℕ → Bool) (fuel : ℕ) (bytes : List ℕ)
    → IsText decodes bytes
    → Reads (read_value decodes fuel string) (written (text bytes)) (text bytes)
unfolding read_value
Reads-text_value decodes fuel bytes good =
    Reads-map (read_text decodes) text (written_text bytes) bytes (Reads-text decodes bytes good)

Reads-items :
    (decodes : List ℕ → Bool) (fuel : ℕ) (t : ValueType) (vs : Values)
    → count vs < 256 ^ 8
    → Reads (repeat (count vs) (read_value decodes fuel t)) (written_all vs) (to_list vs)
    → Reads (read_value decodes (suc fuel) array) (written (items t vs)) (items t vs)
unfolding read_value
Reads-items decodes fuel t vs small each =
    Reads-bind read_type _ (little 4 (number_of t)) (little 8 (count vs) ++ written_all vs) t
      (items t vs) (Reads-type t)
      (Reads-bind (read_unsigned 8) _ (little 8 (count vs)) (written_all vs) (count vs) (items t vs)
        (Reads-unsigned 8 (count vs) small)
        (subst
          (λ (xs : Values).
            Reads
              (repeat (count vs) (read_value decodes fuel t) >>= λ l. pure (items t (from_list l)))
              (written_all vs) (items t xs))
          (from_list-to_list vs)
          (Reads-map (repeat (count vs) (read_value decodes fuel t)) (λ l. items t (from_list l))
            (written_all vs) (to_list vs) each)))

mutual
  unfolding repeat

  reads :
      (decodes : List ℕ → Bool) (v : Value) (fuel : ℕ) (t : ValueType)
      → depth v ≤ fuel
      → IsValue decodes t v
      → Reads (read_value decodes fuel t) (written v) v
  reads decodes (scalar t' n) fuel t d (p, (w, h, small)) =
      subst (λ x. Reads (read_value decodes fuel t) (little (width_or (width_of x)) n) (scalar x n))
        p
        (subst (λ q. Reads q (little (width_or (width_of t)) n) (scalar t n))
          (sym (read_value-scalar decodes fuel t w h)) (Reads-scalar t w n h small))
  reads decodes (flag b) fuel t d p =
      subst (λ x. Reads (read_value decodes fuel x) (written (flag b)) (flag b)) (sym p)
        (Reads-flag decodes fuel b)
  reads decodes (text bytes) fuel t d (p, good) =
      subst (λ x. Reads (read_value decodes fuel x) (written (text bytes)) (text bytes)) (sym p)
        (Reads-text_value decodes fuel bytes good)
  reads decodes (items t' vs) zero t d (p, small, each) = absurd (omega arith)
  reads decodes (items t' vs) (suc fuel) t d (p, small, each) =
      subst (λ x. Reads (read_value decodes (suc fuel) x) (written (items t' vs)) (items t' vs))
        (sym p)
        (Reads-items decodes fuel t' vs small (Reads-all decodes vs fuel t' (omega arith) each))

  Reads-all :
      (decodes : List ℕ → Bool) (vs : Values) (fuel : ℕ) (t : ValueType)
      → depth_all vs ≤ fuel
      → AreValues decodes t vs
      → Reads (repeat (count vs) (read_value decodes fuel t)) (written_all vs) (to_list vs)
  Reads-all decodes nil fuel t d each = Reads-pure []
  Reads-all decodes (cons v vs) fuel t d (good, each) =
      Reads-bind (read_value decodes fuel t) _ (written v) (written_all vs) v (v ∷ to_list vs)
        (reads decodes v fuel t (omega arith) good)
        (Reads-map (repeat (count vs) (read_value decodes fuel t)) (λ more. v ∷ more)
          (written_all vs) (to_list vs) (Reads-all decodes vs fuel t (omega arith) each))

-- A value that a file can hold is read back as it was written, with fuel for its depth.
pub Reads-value :
    (decodes : List ℕ → Bool) (v : Value) (fuel : ℕ) (t : ValueType)
    → depth v ≤ fuel
    → IsValue decodes t v
    → Reads (read_value decodes fuel t) (written v) v
Reads-value = reads

mutual
  depth-le-length : (v : Value) → depth v ≤ length (written v)
  depth-le-length (scalar t n) = omega arith
  depth-le-length (flag b) = omega arith
  depth-le-length (text bytes) = omega arith
  depth-le-length (items t vs) = omega (
    arith,
    depth_all-le-length vs,
    length-append (little 4 (number_of t)) (little 8 (count vs) ++ written_all vs),
    length-append (little 8 (count vs)) (written_all vs),
    length-little 4 (number_of t),
  )

  depth_all-le-length : (vs : Values) → depth_all vs ≤ length (written_all vs)
  depth_all-le-length nil = omega arith
  depth_all-le-length (cons v vs) =
      omega (
        arith,
        depth-le-length v,
        depth_all-le-length vs,
        length-append (written v) (written_all vs),
      )

-- An array takes more bytes than it is deep.
pub depth-le-written : (v : Value) → depth v ≤ length (written v)
depth-le-written = depth-le-length

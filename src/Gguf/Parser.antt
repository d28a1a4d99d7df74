-- ===== src/Gguf/Parser.antt =====
-- Reading a file from its current position, as `f.read` and `f.tell` do. An exception is an error
-- value that ends the read.
use mathlib.Core.List.{append_assoc}
use matricxon.Base.{
  length-append, inr, inl, In, ℕ, zero, suc, ◌+◌, ◌≡◌, List, [], ◌∷◌, ◌++◌, length, take, drop,
  refl, ap, ◌∙◌, arith,
}

-- `bad_magic` and `bad_version` are the `InvalidGGUFError`s; `short_read` is the `struct.error` of a
-- number cut off by the end of the file, `bad_type` the `ValueError` of an unknown value type,
-- `bad_text` the `UnicodeDecodeError`, `no_scalar` the `KeyError` of a type with no layout, and
-- `bad_alignment` stands for what follows an alignment that is no positive whole number.
pub data Error : Type 0 where
  out_of_fuel bad_magic bad_version short_read bad_type bad_text no_scalar bad_alignment : Error

pub data Result {ℓ} (A : Type ℓ) : Type ℓ where
  ok : A → Result A
  err : Error → Result A

-- The open file: how much of it was read, and the rest.
pub record File : Type 0 where
  pub pos : ℕ
  pub rest : List ℕ

abbrev pub Parser {ℓ} : Type ℓ → Type ℓ
Parser A = File → Result (A × File)

abbrev pub then_read {ℓ κ} :
    {A : Type ℓ} {B : Type κ} → Result (A × File) → (A → Parser B) → Result (B × File)
then_read (ok (a, f)) k = k a f
then_read (err e) k = err e

infixl 5 ◌>>=◌
abbrev pub ◌>>=◌ {ℓ κ} : {A : Type ℓ} {B : Type κ} → Parser A → (A → Parser B) → Parser B
p >>= k = λ f. then_read (p f) k

abbrev pub pure {ℓ} : {A : Type ℓ} → A → Parser A
pure a f = ok (a, f)

abbrev pub fail {ℓ} : {A : Type ℓ} → Error → Parser A
fail e f = err e

-- `f.read(n)`: at the end of the file it returns what is left.
unfoldable pub read_bytes : ℕ → Parser (List ℕ)
read_bytes n f =
    let bytes = take n f.rest in
    ok (bytes, record { pos = f.pos + length bytes; rest = drop n f.rest })

-- A comprehension over `range(count)`.
unfoldable pub repeat {ℓ} : {A : Type ℓ} → ℕ → Parser A → Parser (List A)
repeat zero p = pure []
repeat (suc count) p = p >>= λ a. repeat count p >>= λ more. pure (a ∷ more)

-- The parser reads these bytes to this value, wherever they stand, and leaves the rest.
abbrev pub Reads {ℓ} : {A : Type ℓ} → Parser A → List ℕ → A → Type ℓ
Reads p bytes a =
    (pos : ℕ) (rest : List ℕ)
    → p (record { pos = pos; rest = bytes ++ rest })
      ≡ ok (a, record { pos = pos + length bytes; rest = rest })

take-append {ℓ} : {A : Type ℓ} (xs ys : List A) → take (length xs) (xs ++ ys) ≡ xs
take-append [] ys = refl
take-append (x ∷ xs) ys = ap (λ zs. x ∷ zs) (take-append xs ys)

drop-append {ℓ} : {A : Type ℓ} (xs ys : List A) → drop (length xs) (xs ++ ys) ≡ ys
drop-append [] ys = refl
drop-append (x ∷ xs) ys = drop-append xs ys

pub Reads-read_bytes : (bytes : List ℕ) → Reads (read_bytes (length bytes)) bytes bytes
unfolding read_bytes
Reads-read_bytes bytes pos rest = rw (take-append bytes rest, drop-append bytes rest)

pub Reads-pure {ℓ} : {A : Type ℓ} (a : A) → Reads (pure a) [] a
Reads-pure a pos rest = ap (λ n. ok (a, record { pos = n; rest = rest })) (omega arith)

pub Reads-bind {ℓ κ} :
    {A : Type ℓ} {B : Type κ} (p : Parser A) (k : A → Parser B) (xs ys : List ℕ) (a : A) (b : B)
    → Reads p xs a
    → Reads (k a) ys b
    → Reads (p >>= k) (xs ++ ys) b
Reads-bind p k xs ys a b first second pos rest =
    ap (λ bytes. then_read (p (record { pos = pos; rest = bytes })) k) (append_assoc xs ys rest)
    ∙ ap (λ r. then_read r k) (first pos (ys ++ rest))
    ∙ second (pos + length xs) rest
    ∙ ap (λ n. ok (b, record { pos = n; rest = rest })) (omega (arith, length-append xs ys))

-- The last step of a parser gives no bytes of its own.
pub Reads-map {ℓ κ} :
    {A : Type ℓ} {B : Type κ} (p : Parser A) (f : A → B) (xs : List ℕ) (a : A)
    → Reads p xs a
    → Reads (p >>= λ x. pure (f x)) xs (f a)
Reads-map p f xs a first pos rest = ap (λ r. then_read r (λ x. pure (f x))) (first pos rest)

abbrev pub concat_map {ℓ} : {A : Type ℓ} → (A → List ℕ) → List A → List ℕ
concat_map print [] = []
concat_map print (x ∷ xs) = print x ++ concat_map print xs

-- As many values as the count says, each printed by one function.
pub Reads-repeat :
    {A : Type 0} (p : Parser A) (print : A → List ℕ) (xs : List A)
    → ((x : A) → In x xs → Reads p (print x) x)
    → Reads (repeat (length xs) p) (concat_map print xs) xs
unfolding repeat
Reads-repeat p print [] each = Reads-pure []
Reads-repeat p print (x ∷ xs) each =
    Reads-bind p _ (print x) (concat_map print xs) x (x ∷ xs) (each x (inl refl)) (
      Reads-map (repeat (length xs) p) (λ more. x ∷ more) (concat_map print xs) xs
        (Reads-repeat p print xs (λ y m. each y (inr m))))

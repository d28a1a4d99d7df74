-- ===== src/Gguf/Number.antt =====
-- Unsigned little-endian numbers, as `struct.unpack` reads them.
use matricxon.Base.{
  eqb_iff, ◌∙◌, subst, ap, ℕ, zero, suc, ◌+◌, ◌*◌, ◌/◌, ◌%◌, ◌^◌, ◌<◌, ◌≡◌, List, [], ◌∷◌, length,
  refl, arith, eqb, if◌then◌else◌,
}
use matricxon.Gguf.Parser.{
  then_read, Parser, ◌>>=◌, pure, fail, short_read, read_bytes, Reads, Reads-read_bytes,
}

unfoldable pub from_little : List ℕ → ℕ
from_little [] = 0
from_little (b ∷ bytes) = b + 256 * from_little bytes

-- `struct.unpack(fmt, f.read(width))` for an unsigned format of this width.
unfoldable pub read_unsigned : ℕ → Parser ℕ
read_unsigned width = read_bytes width >>= λ bytes.
    if eqb (length bytes) width then pure (from_little bytes) else fail short_read

-- How a number is written in so many bytes.
abbrev pub little : ℕ → ℕ → List ℕ
little zero n = []
little (suc width) n = n % 256 ∷ little width (n / 256)

pub length-little : (width n : ℕ) → length (little width n) ≡ width
length-little zero n = refl
length-little (suc width) n = omega (arith, length-little width (n / 256))

from_little-little : (width n : ℕ) → n < 256 ^ width → from_little (little width n) ≡ n
unfolding from_little
from_little-little zero n h = omega arith
from_little-little (suc width) n h = omega (arith, from_little-little width (n / 256) (omega arith))

pub Reads-unsigned :
    (width n : ℕ) → n < 256 ^ width → Reads (read_unsigned width) (little width n) n
unfolding read_unsigned
Reads-unsigned width n h pos rest =
    ap
      (λ r.
        then_read r
          (λ bytes. if eqb (length bytes) width then pure (from_little bytes) else fail short_read))
      (subst (λ w. Reads (read_bytes w) (little width n) (little width n)) (length-little width n)
        (Reads-read_bytes (little width n)) pos rest)
    ∙ rw (length-little width n, from_little-little width n h, (eqb_iff width width).1 refl)

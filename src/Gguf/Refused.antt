-- ===== src/Gguf/Refused.antt =====
-- The files that `read` refuses by their first bytes (app/gguf/reader.py).
use matricxon.Base.{
  ℕ, ◌<◌, ◌^◌, ◌≡◌, ◌≢◌, ◌∙◌, ◌++◌, List, Bool, false, take, eqb, inl, inr, refl, arith, beq-cases,
}
use matricxon.Gguf.Parser.{err, bad_magic, bad_version, read_bytes, then_read}
use matricxon.Gguf.Number.{little, Reads-unsigned, read_unsigned}
use matricxon.Gguf.Metadata.{codes, bytes_eq}
use matricxon.Gguf.Reader.{read, read_file, check_magic}
use matricxon.Gguf.RoundTrip.{bind_step, Reads-magic}

module _ (decodes : List ℕ → Bool) where
  -- A file that does not begin with the magic number is refused for it, and one that does, with a
  -- version other than 3 in the next four bytes, is refused for its version.
  pub read_refused :
      (bytes : List ℕ) (version : ℕ) (rest : List ℕ)
      → take 4 bytes ≢ codes "GGUF"
      → version < 256 ^ 4
      → version ≢ 3
      → (read decodes bytes ≡ err bad_magic)
        × (read decodes (codes "GGUF" ++ little 4 version ++ rest) ≡ err bad_version)
  unfolding read read_file check_magic read_bytes
  read_refused bytes version rest other small old = (
    elim (beq-cases (take 4 bytes) (codes "GGUF")) [
      | inl p ↦ absurd (other p)
      | inr f ↦ rw (f, then_read) refl
    ],
    bind_step check_magic _ (codes "GGUF") _ 0 tt (Reads-magic decodes)
        ∙ bind_step (read_unsigned 4) _ (little 4 version) rest 4 version
            (Reads-unsigned 4 version small)
        ∙ rw wrong refl,
  )
    where
      wrong : eqb version 3 ≡ false
      wrong = ground arith

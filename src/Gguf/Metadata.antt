-- ===== src/Gguf/Metadata.antt =====
-- app/gguf/metadata.py: access to the metadata by key. A key is its UTF-8 bytes.
use Prim.Native.Char.{code}
use Prim.Native.String.{String}
use matricxon.Base.{ℕ, ℕ_discrete, List, [], ◌∷◌, ◌++◌, Option, none, some, Eq, of_discrete}
use matricxon.Base.Dict.{Dict, get, get_or}
use matricxon.Gguf.Value.{Value, text}

-- The bytes of an ASCII text.
abbrev pub codes : String → List ℕ
codes String.[] = []
codes (String.◌∷◌ c s) = code c ∷ codes s

unfoldable pub bytes_discrete : Discrete (List ℕ)
unfolding ℕ_discrete
bytes_discrete = hlevel (ℕ_discrete)

instance abbrev pub bytes_eq : Eq (List ℕ)
bytes_eq = of_discrete bytes_discrete

abbrev pub Metadata : Type 0
Metadata = Dict (List ℕ) Value

-- `require`: none is the `MissingMetadataError`.
unfoldable pub require : List ℕ → Metadata → Option Value
require key m = get key m

-- `get` and its typed namesakes, none of which checks a type.
unfoldable pub get_value : List ℕ → Value → Metadata → Value
get_value key default m = get_or key default m

-- `architecture`
unfoldable pub architecture : Metadata → Option Value
unfolding require
architecture m = require (codes "general.architecture") m

-- `arch_key`, for an architecture that is a text.
unfoldable pub arch_key : List ℕ → Metadata → Option (List ℕ)
unfolding architecture
arch_key suffix m = elim (architecture m) [
  | none ↦ none
  | some v ↦ elim v [ text name ↦ some (name ++ (b'.' ∷ suffix)) | _ ↦ none ]
]

-- ===== src/Text.antt =====
-- Text as the program's `std::string`: a list of bytes, compared as `std::string::operator<` does.
pub mod Order
pub mod Stream
pub mod Find
use Prim.Native.Char.{code}
use Prim.Native.String.{String}
use gorn.Common.{ℕ, List, [], ◌∷◌}

abbrev pub Bytes : Type 0
Bytes = List ℕ

-- The bytes of a literal: its code points, for ASCII text.
abbrev pub codes : String → Bytes
codes String.[] = []
codes (String.◌∷◌ c s) = code c ∷ codes s

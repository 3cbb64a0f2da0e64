-- ===== src/Prelude/Text.antt =====
-- ASCII text as its bytes.
use Prim.Native.Nat.{ℕ, ◌+◌}
use Prim.Native.Char.{code}
use Prim.Native.String.{String}
use mathlib.Core.Bool.{Bool, true, false, ◌&&◌, ◌||◌}
use offline_bearer_protocol.Prelude.Tests.{leb, ◌==◌, if◌then◌else◌}
use mathlib.Core.List.{List, [], ◌∷◌}

-- `Buffer.from(text, 'utf8')`
abbrev pub utf8 : String → List ℕ
utf8 String.[] = []
utf8 (String.◌∷◌ c s) = code c ∷ utf8 s

-- `text.toLowerCase()`, for ASCII letters
unfoldable pub to_lower : List ℕ → List ℕ
to_lower [] = []
to_lower (c ∷ text) =
    let rest = to_lower text in (if leb 65 c && leb c 90 then c + 32 else c) ∷ rest

unfoldable pub starts_with : List ℕ → List ℕ → Bool
starts_with text [] = true
starts_with [] (_ ∷ _) = false
starts_with (c ∷ text) (w ∷ word) = (c == w) && starts_with text word

-- `text.includes(word)`
unfoldable pub includes : List ℕ → List ℕ → Bool
unfolding starts_with
includes [] word = starts_with [] word
includes (c ∷ text) word = starts_with (c ∷ text) word || includes text word

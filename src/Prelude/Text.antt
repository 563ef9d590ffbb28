-- ===== src/Prelude/Text.antt =====
-- C strings as lists of character codes.
use Prim.Native.String.{String}
use Prim.Native.Char.{code}
use Prim.Native.Nat.{ℕ}
use mathlib.Core.Bool.{Bool, true, false, ◌&&◌}
use linux_kernel_prog.Prelude.Tests.{◌==◌}
use mathlib.Core.List.{List, [], ◌∷◌}

abbrev pub codes : String → List ℕ
codes String.[] = []
codes (String.◌∷◌ c s) = code c ∷ codes s

-- `strncmp(text, prefix, strlen(prefix)) == 0`, for a prefix with no NUL in it.
abbrev pub starts_with : (prefix text : List ℕ) → Bool
starts_with [] text = true
starts_with (c ∷ cs) [] = false
starts_with (c ∷ cs) (n ∷ ns) = (c == n) && starts_with cs ns

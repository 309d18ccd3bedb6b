-- ===== src/Prelude/Text.antt =====
-- Python's text operations that the program uses.
use Prim.Native.Char.{code}
use Prim.Native.String.{String, ◌++◌}
use Prim.Native.Nat.{ℕ}
use mathlib.Core.Bool.{Bool, not, ◌||◌}
use mathlib.Core.List.{List, [], ◌∷◌}
use text.Mathlib.Text.{◌==◌}
use code_assist_analyzer.Prelude.Tests.{nat_beq, if◌then◌else◌}

-- `''.join(parts)`, and what `format` makes of a template and its arguments
unfoldable pub join : List String → String
join [] = ""
join (s ∷ parts) = s ++ join parts

abbrev prepend : String → List String → List String
prepend c [] = c ∷ []
prepend c (w ∷ words) = (c ++ w) ∷ words

-- `text.split(separator)` at a separator of one character
unfoldable pub split : ℕ → String → List String
split separator String.[] = "" ∷ []
split separator (String.◌∷◌ c text) =
    let words = split separator text in
    if nat_beq (code c) separator then "" ∷ words else prepend (String.◌∷◌ c "") words

-- a text is true unless it is empty
abbrev pub is_truthy : String → Bool
is_truthy s = not (s == "")

-- `text.replace(' ', '_')` for one character by another
unfoldable pub replace_char : ℕ → String → String → String
replace_char old new String.[] = ""
replace_char old new (String.◌∷◌ c text) =
    (if nat_beq (code c) old then new else String.◌∷◌ c "") ++ replace_char old new text

-- `text.endswith(suffix)`
unfoldable pub ends_with : String → String → Bool
ends_with suffix String.[] = suffix == ""
ends_with suffix (String.◌∷◌ c text) = (suffix == String.◌∷◌ c text) || ends_with suffix text

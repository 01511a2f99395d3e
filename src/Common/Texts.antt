-- ===== src/Common/Texts.antt =====
-- Texts put together from parts.
use Prim.Native.String.{String, ◌++◌}
use mathlib.Core.List.{List, [], ◌∷◌}

-- An f-string, by its parts
abbrev pub f_string : List String → String
f_string [] = ""
f_string (part ∷ parts) = part ++ f_string parts

-- ===== src/Utils/Text.antt =====
-- The functions of Go's `strings` that the source calls, on the code points of a text, and
-- ExtractColumnName and SplitAndTrim of utils/utils.go.
use Prim.Native.Char.{Char, code}
use Prim.Native.String.{◌++◌ as append}
use olake.Base.{
  ℕ, String, Bool, ◌&&◌, ◌||◌, List, [], ◌∷◌, leb, nat_beq, if◌then◌else◌, ◌==◌, string_eq,
}
use olake.Utils.Reformat.{lower}

abbrev pub empty_text : String
empty_text = ""

-- strings.ToLower
unfoldable pub to_lower : String → String
to_lower String.[] = String.[]
to_lower (String.◌∷◌ c s) = String.◌∷◌ (lower c) (to_lower s)

-- unicode.IsSpace
is_space : ℕ → Bool
is_space n =
    (leb 9 n && leb n 13)
    || nat_beq n 0x20
    || nat_beq n 0x85
    || nat_beq n 0xA0
    || nat_beq n 0x1680
    || (leb 0x2000 n && leb n 0x200A)
    || nat_beq n 0x2028
    || nat_beq n 0x2029
    || nat_beq n 0x202F
    || nat_beq n 0x205F
    || nat_beq n 0x3000

trim_left : String → String
trim_left String.[] = String.[]
trim_left (String.◌∷◌ c s) =
    let rest = trim_left s in if is_space (code c) then rest else String.◌∷◌ c s

trim_right : String → String
trim_right String.[] = String.[]
trim_right (String.◌∷◌ c s) =
    let rest = trim_right s in
    if is_space (code c) && rest == empty_text then empty_text else String.◌∷◌ c rest

-- strings.TrimSpace
unfoldable pub trim_space : String → String
unfolding trim_left trim_right is_space
trim_space s = trim_right (trim_left s)

-- A character in front of the first piece
grow : Char → List String → List String
grow c [] = String.◌∷◌ c String.[] ∷ []
grow c (p ∷ ps) = String.◌∷◌ c p ∷ ps

-- strings.Split at a separator of one character
unfoldable pub split : Char → String → List String
unfolding grow
split sep String.[] = String.[] ∷ []
split sep (String.◌∷◌ c s) =
    let rest = split sep s in if nat_beq (code c) (code sep) then String.[] ∷ rest else grow c rest

-- ExtractColumnName
unfoldable pub extract_column_name : List String → String
extract_column_name [] = ""
extract_column_name (g ∷ gs) = if g == empty_text then extract_column_name gs else g

keep_nonempty : List String → List String
keep_nonempty [] = []
keep_nonempty (p ∷ ps) =
    let t = trim_space p in if t == empty_text then keep_nonempty ps else t ∷ keep_nonempty ps

-- SplitAndTrim
unfoldable pub split_and_trim : String → List String
unfolding keep_nonempty
split_and_trim s = keep_nonempty (split "," s)

-- `fmt.Sprintf("%s.%s", a, b)`
abbrev pub dotted : String → String → String
dotted a b = append a (append "." b)

-- StreamIdentifier
unfoldable pub stream_identifier : String → String → String
stream_identifier name namespace = if namespace == empty_text then name else dotted namespace name

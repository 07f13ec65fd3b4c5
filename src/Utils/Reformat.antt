-- ===== src/Utils/Reformat.antt =====
-- utils/utils.go: Reformat, which makes a destination-safe name of any name. A text is its code
-- points. Of the case mapping of the Unicode standard, which Go's `strings.ToLower` follows, only
-- the letters that it takes into ASCII matter: the others become `_` with or without it.
use Prim.Native.Char.{Char, code}
use text.Mathlib.TextEquality.{Char-path}
use olake.Base.{
  ℕ, zero, suc, ◌-◌, String, ◌≡◌, refl, ap₂, Bool, true, false, ◌&&◌, ◌||◌, arith, leb, nat_beq,
  if◌then◌else◌, every_below, every_below_sound, Bool-cases, inl, inr,
}

-- IsLetterOrNumber
unfoldable pub is_letter_or_number : ℕ → Bool
is_letter_or_number symbol =
    (leb b'a' symbol && leb symbol b'z')
    || (leb b'A' symbol && leb symbol b'Z')
    || (leb b'0' symbol && leb symbol b'9')

abbrev letters : String
letters = "abcdefghijklmnopqrstuvwxyz"

char_at : ℕ → String → Char → Char
char_at i String.[] d = d
char_at zero (String.◌∷◌ c s) d = c
char_at (suc i) (String.◌∷◌ c s) d = char_at i s d

abbrev underscore : Char
underscore = "_"

is_upper : Char → Bool
is_upper c = leb b'A' (code c) && leb (code c) b'Z'

-- The Kelvin sign and the dotted capital I are the two letters beyond ASCII whose lower case is in it.
pub lower_by : Bool → Bool → Bool → Char → Char
lower_by true kelvin dotted c = char_at (code c - b'A') letters underscore
lower_by false true dotted c = "k"
lower_by false false true c = "i"
lower_by false false false c = c

unfoldable pub lower : Char → Char
unfolding lower_by is_upper char_at
lower c = lower_by (is_upper c) (nat_beq (code c) 0x212A) (nat_beq (code c) 0x130) c

reformat_char : Char → Char
reformat_char c = let d = lower c in if is_letter_or_number (code d) then d else underscore

unfoldable pub reformat : String → String
unfolding reformat_char lower is_letter_or_number char_at
reformat String.[] = String.[]
reformat (String.◌∷◌ c s) = String.◌∷◌ (reformat_char c) (reformat s)

reformat_test : reformat "My Table-1" ≡ "my_table_1"
unfolding reformat
reformat_test = refl

-- What a destination accepts: lower-case ASCII letters, digits and the underscore.
unfoldable pub is_safe : ℕ → Bool
is_safe n = (leb b'a' n && leb n b'z') || (leb b'0' n && leb n b'9') || nat_beq n b'_'

abbrev pub IsSafe : String → Type 0
IsSafe String.[] = Unit
IsSafe (String.◌∷◌ c s) = (is_safe (code c) ≡ true) × IsSafe s

letters_table : every_below 26 (λ i. is_safe (code (char_at i letters underscore))) ≡ true
unfolding is_safe char_at every_below
letters_table = refl

lower_by-is_safe :
    (u k d : Bool) (c : Char)
    → is_upper c ≡ u
    → is_letter_or_number (code (lower_by u k d c)) ≡ true
    → is_safe (code (lower_by u k d c)) ≡ true
unfolding lower_by is_upper is_safe is_letter_or_number
lower_by-is_safe true k d c up h =
    every_below_sound 26 (λ i. is_safe (code (char_at i letters underscore))) (code c - b'A')
      (ground arith) letters_table
lower_by-is_safe false true d c up h = refl
lower_by-is_safe false false true c up h = refl
lower_by-is_safe false false false c up h = ground arith

is_safe-reformat_char : (c : Char) → is_safe (code (reformat_char c)) ≡ true
unfolding reformat_char
is_safe-reformat_char c = elim (Bool-cases (is_letter_or_number (code (lower c)))) [
  | inl h ↦ rw h (unfold lower in lower_by-is_safe (is_upper c) _ _ c refl h)
  | inr h ↦ rw h (unfold is_safe in refl)
]

reformat_char_fixed : (c : Char) → is_safe (code c) ≡ true → reformat_char c ≡ c
unfolding reformat_char lower is_safe is_letter_or_number
reformat_char_fixed c h = ground (arith, Char-path underscore c)

-- Every character of a reformatted name is safe for a destination.
pub reformat-IsSafe : (s : String) → IsSafe (reformat s)
unfolding reformat
reformat-IsSafe String.[] = tt
reformat-IsSafe (String.◌∷◌ c s) = (is_safe-reformat_char c, reformat-IsSafe s)

-- Reformat leaves a name that is safe already as it is.
pub reformat_fixed : (s : String) → IsSafe s → reformat s ≡ s
unfolding reformat
reformat_fixed String.[] h = refl
reformat_fixed (String.◌∷◌ c s) h =
    ap₂ String.◌∷◌ (reformat_char_fixed c h.0) (reformat_fixed s h.1)

-- Reformat is idempotent.
pub reformat_idem : (s : String) → reformat (reformat s) ≡ reformat s
reformat_idem s = reformat_fixed (reformat s) (reformat-IsSafe s)

-- ===== src/Drivers/Mysql/Charset.antt =====
-- drivers/mysql/internal/backfill.go: the texts of a key column as numbers. A text is the list of
-- its runes, as a Go `range` reads them, and a big.Int that is never negative is a ℕ.
pub mod RoundTrip
use olake.Base.{
  ℕ, zero, suc, ◌+◌, ◌-◌, ◌*◌, ◌/◌, ◌%◌, ◌≡◌, Bool, true, false, Option, none, some, List, [], ◌∷◌,
  ◌++◌, if◌then◌else◌, ◌==◌, nat_eq, leb, length, reverse,
}
use olake.Utils.Arrays.{array_contains, get_elem?}

abbrev pub Rune : Type 0
Rune = ℕ

abbrev span : ℕ → ℕ → List Rune
span first zero = []
span first (suc n) = first ∷ span (suc first) n

-- charset: 0-9, A-Z, a-z, [ to `, { to ~, ! to /, : to @, and the space
abbrev pub charset : List Rune
charset =
    span 48 10
    ++ span 65 26
    ++ span 97 26
    ++ span 91 6
    ++ span 123 4
    ++ span 33 15
    ++ span 58 7
    ++ 32 ∷ []

abbrev pub charset_base : ℕ
charset_base = 95

-- The two maps of buildCharsetMaps, whose indices start at 1
pub char_to_index : Rune → Option ℕ
char_to_index ch = elim (array_contains charset (λ c. c == ch)) [
  | none ↦ none
  | some i ↦ some (suc i)
]

pub rune_or_zero : Option Rune → Rune
rune_or_zero none = 0
rune_or_zero (some c) = c

pub index_to_char : ℕ → Rune
unfolding rune_or_zero
index_to_char zero = 0
index_to_char (suc i) = rune_or_zero (get_elem? charset i)

pub encode_from : ℕ → List Rune → Option ℕ
encode_from val [] = some val
encode_from val (ch ∷ s) = elim (char_to_index ch) [
  | none ↦ none
  | some idx ↦ encode_from (val * charset_base + idx) s
]

-- encodeCharsetStringToBigInt; `none` is its error
unfoldable pub encode_charset_string : List Rune → Option ℕ
unfolding encode_from char_to_index
encode_charset_string s = encode_from 0 s

-- The digit of one round of the loop, and what the round leaves
abbrev pub last_digit : ℕ → ℕ
last_digit x = if x % charset_base == 0 then charset_base else x % charset_base

abbrev pub other_digits : ℕ → ℕ
other_digits x = (if x % charset_base == 0 then x - 1 else x) / charset_base

-- The loop, on fuel: a round makes `x` less, so `x` rounds are enough.
pub decode_loop : ℕ → ℕ → List Rune → List Rune
decode_loop zero x runes = runes
decode_loop (suc fuel) x runes =
    let rest = decode_loop fuel (other_digits x) (runes ++ index_to_char (last_digit x) ∷ []) in
    if x == 0 then runes else rest

-- decodeBigIntToCharsetString
unfoldable pub decode_charset_string : ℕ → List Rune
unfolding decode_loop index_to_char
decode_charset_string n = if n == 0 then [] else reverse (decode_loop n n [])

-- padRightWithZeroes
pub zeroes : ℕ → List Rune
zeroes zero = []
zeroes (suc n) = 48 ∷ zeroes n

unfoldable pub pad_right_with_zeroes : List Rune → ℕ → List Rune
unfolding zeroes
pad_right_with_zeroes s max_length =
    if leb max_length (length s) then s else s ++ zeroes (max_length - length s)

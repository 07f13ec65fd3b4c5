-- ===== src/Tests/Chunks.antt =====
-- drivers/mysql/internal/backfill.go.
use olake.Base.{
  ℕ, suc, ◌+◌, ◌<◌, ◌≡◌, refl, arith, none, some, List, [], ◌∷◌, length, if◌then◌else◌, ltb,
}
use olake.Utils.Arrays.{get_elem?, array_contains}
use olake.Drivers.Mysql.Charset.{Rune, encode_charset_string, decode_charset_string}
use olake.Drivers.Mysql.Charset.RoundTrip.{
  encode-decode_charset_string, decode-encode_charset_string,
}
use olake.Drivers.Mysql.Split.{
  NumericChunkBounds, IntChunk, chunk, done, overflow, int_chunks, int64_range, condense_strings,
  condensed_index,
}
use olake.Drivers.Mysql.Split.Evenly.{
  int_chunks_lem, int_chunks-cover, pieces, steps, last_boundary, count,
}
use olake.Drivers.Mysql.Split.Condense.{condense_strings_lem}

encode-decode_charset_string_example :
    encode_charset_string (decode_charset_string 9120) ≡ some 9120
encode-decode_charset_string_example = encode-decode_charset_string 9120

abbrev a0 : List Rune
a0 = 65 ∷ 48 ∷ []

decode-encode_charset_string_example : decode_charset_string 1046 ≡ a0
unfolding encode_charset_string array_contains
decode-encode_charset_string_example = decode-encode_charset_string a0 1046 refl

abbrev bounds : NumericChunkBounds
bounds = record { chunk_step = 25; min_boundary = 100; max_boundary = 200 }

int_chunks_lem_example : int_chunks bounds ≡ (
    if ltb (last_boundary bounds + 25) int64_range
    then done (chunk none (some 100) ∷ pieces 25 100 (steps bounds))
    else overflow)
int_chunks_lem_example =
    int_chunks_lem bounds (omega arith) (omega arith) (omega arith) (omega arith)

abbrev cut : List IntChunk
cut =
    chunk none (some 100)
    ∷ chunk (some 100) (some 125)
    ∷ chunk (some 125) (some 150)
    ∷ chunk (some 150) (some 175)
    ∷ chunk (some 175) (some 200)
    ∷ chunk (some 200) none
    ∷ []

int_chunks-cover_example : count 150 cut ≡ 1
unfolding int_chunks
int_chunks-cover_example =
    int_chunks-cover bounds cut 150 (omega arith) (omega arith) (omega arith) (omega arith) refl

abbrev candidates : List ℕ
candidates = 10 ∷ 20 ∷ 30 ∷ 40 ∷ 50 ∷ []

condense_strings_lem_example :
    (ys : List ℕ) × (condense_strings candidates 3 ≡ some ys)
    × (length ys ≡ 3)
    × ((i : ℕ) → i < 3 → get_elem? ys i ≡ get_elem? candidates (condensed_index 5 3 i))
    × ((i : ℕ) → condensed_index 5 3 i < condensed_index 5 3 (suc i))
    × (condensed_index 5 3 0 ≡ 0)
    × (condensed_index 5 3 2 ≡ 4)
condense_strings_lem_example = condense_strings_lem candidates 3 (omega arith) (omega arith)

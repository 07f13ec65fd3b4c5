-- ===== src/Tests/Sets.antt =====
-- types/set.go and types/delete_mode.go.
use olake.Base.{String, ◌≡◌, refl, not, ◌&&◌, ◌||◌, none, some, [], ◌∷◌, elem, string_eq}
use olake.Types.Set.{
  Set, Hashing, hash_with, new_set, insert_all, exists, insert_one, empty, difference, intersection,
  union,
}
use olake.Types.Set.Invariant.{IsWf, new_set-IsWf}
use olake.Types.Set.Algebra.{algebra_keys}
use olake.Types.UpdateType.{parse_query_engines}
use olake.Types.UpdateType.Available.{Parsed, parse_query_engines-Parsed}

-- A hash that tells all texts apart
abbrev pub text_hashing : Hashing String
text_hashing = record {
  hashable = none;
  identifiable = none;
  structure_hash = λ s. some s;
  zero_value = "";
}

pub text_hashing-inj :
    (a b : String) → hash_with text_hashing none a ≡ hash_with text_hashing none b → a ≡ b
unfolding hash_with
text_hashing-inj a b h = h

abbrev pub two_texts : Set String
two_texts = new_set text_hashing ("a" ∷ "b" ∷ [])

two_texts-IsWf : IsWf text_hashing two_texts
two_texts-IsWf = new_set-IsWf text_hashing ("a" ∷ "b" ∷ [])

abbrev other_texts : Set String
other_texts = new_set text_hashing ("b" ∷ "c" ∷ [])

algebra_keys_example :
    (elem "b" (difference text_hashing two_texts other_texts).hash
      ≡ (elem "b" two_texts.hash && not (elem "b" other_texts.hash)))
    × (elem "b" (intersection text_hashing two_texts other_texts).hash
        ≡ (elem "b" two_texts.hash && elem "b" other_texts.hash))
    × (elem "b" (union text_hashing two_texts other_texts).hash
        ≡ (elem "b" two_texts.hash || elem "b" other_texts.hash))
unfolding new_set insert_all insert_one exists empty hash_with
algebra_keys_example =
    algebra_keys text_hashing two_texts other_texts "b" two_texts-IsWf
      (new_set-IsWf text_hashing ("b" ∷ "c" ∷ [])) refl refl

parse_query_engines-Parsed_example :
    Parsed []
      ("Trino" ∷ " trino" ∷ "hive" ∷ [])
      (parse_query_engines ("Trino" ∷ " trino" ∷ "hive" ∷ []))
parse_query_engines-Parsed_example = parse_query_engines-Parsed ("Trino" ∷ " trino" ∷ "hive" ∷ [])

-- ===== src/Tests/States.antt =====
-- types/state.go and types/stream_configured.go.
use olake.Base.{
  ℕ, String, ◌≡◌, refl, true, false, ◌&&◌, none, some, List, [], ◌∷◌, ◌+◌, ◌==◌, string_eq, nat_eq,
  if◌then◌else◌, not, elem, map, Bool-cases, inl, inr,
}
use olake.Base.Assoc.{lookup}
use olake.Types.Set.{Set, new_set, insert_all, insert_one, exists, empty, len, hash_with, hash_of}
use olake.Types.Set.Invariant.{new_set-IsWf}
use olake.Types.TypeSchema.{new_type_schema}
use olake.Types.Stream.{Stream, incremental}
use olake.Types.Configured.{ConfiguredStream, retain_selected_columns, is_selected_column}
use olake.Types.Configured.Columns.{retain-is_selected}
use olake.Types.Catalog.{zero_metadata}
use olake.Types.State.{
  State, chunks, plain, load, store, chunks_key, has_completed_backfill, stream_type,
}
use olake.Types.State.Reads.{is_same, load-store}
use olake.Types.State.Chunks.{remove_each, countdown, remove_each-countdown, backfill_completes}
use olake.Types.State.{plain, StreamState}
use olake.Types.State.Files.{Codec, is_plain}
use olake.Types.State.Files.{unmarshal_stream, marshal_stream, again, unmarshal-marshal_stream}
use olake.Tests.Sets.{text_hashing, text_hashing-inj, two_texts}

abbrev updated_at : String
updated_at = "updated_at"

abbrev email : String
email = "email"

abbrev row : List (String × ℕ)
row = ("id", 1) ∷ (email, 2) ∷ []

abbrev pub table : String → Stream
table name = record {
  name = name;
  namespace = "shop";
  schema = new_type_schema;
  supported_sync_modes = empty;
  available_update_types = [];
  source_defined_primary_key = empty;
  available_cursor_fields = empty;
  additional_properties = "";
  cursor_field = "updated_at";
  sync_mode = incremental;
  destination_database = "lake:shop";
  destination_table = name;
  default_stream_properties = none;
}

abbrev pub orders : ConfiguredStream String
orders = record { stream_metadata = zero_metadata; stream = table "orders" }

abbrev users : ConfiguredStream String
users = record { stream_metadata = zero_metadata; stream = table "users" }

abbrev pub blank : String → State String String
blank t = record { type = t; version = 0; global = none; streams = [] }

load-store_example :
    load (store (blank stream_type) orders updated_at (plain "7")) users updated_at ≡ (
      if is_same orders users && updated_at == updated_at
      then some (plain "7")
      else load (blank stream_type) users updated_at)
load-store_example = load-store (blank stream_type) orders users updated_at updated_at (plain "7")

abbrev marked : State String String
marked = store (blank stream_type) orders updated_at (plain "7")

abbrev started : State String String
started = store (blank stream_type) orders chunks_key (chunks two_texts)

started-load : load started orders chunks_key ≡ some (chunks two_texts)
started-load = load-store (blank stream_type) orders orders chunks_key chunks_key (chunks two_texts)

remove_each-countdown_example :
    (t : State String String) × (d : Set String) × (remove_each text_hashing started orders
        ("b" ∷ "a" ∷ [])
      ≡ some (t, countdown (len two_texts) 2))
    × (load t orders chunks_key ≡ some (chunks d))
    × (len d + 2 ≡ len two_texts)
    × ((y : String)
        → exists text_hashing d y ≡ (
            exists text_hashing two_texts y
            && not (
                elem
                  (hash_of text_hashing two_texts y)
                  (map (hash_of text_hashing two_texts) ("b" ∷ "a" ∷ [])))))
    × (t.type ≡ stream_type)
    × (t.global ≡ none)
    × ((b : ConfiguredStream String) (j : String)
        → (is_same orders b && chunks_key == j) ≡ false
        → load t b j ≡ load started b j)
unfolding new_set insert_all insert_one exists empty hash_with store
remove_each-countdown_example =
    remove_each-countdown text_hashing started orders two_texts ("b" ∷ "a" ∷ []) started-load
      (new_set-IsWf text_hashing ("a" ∷ "b" ∷ [])) (refl, (refl, tt)) refl

backfill_completes_example :
    (t : State String String) × (remove_each text_hashing started orders ("b" ∷ "a" ∷ [])
      ≡ some (t, countdown (len two_texts) 2))
    × (has_completed_backfill text_hashing t orders ≡ (len two_texts == 2))
unfolding new_set insert_all insert_one exists empty hash_with store
backfill_completes_example =
    backfill_completes text_hashing text_hashing started orders two_texts ("b" ∷ "a" ∷ []) refl
      started-load (new_set-IsWf text_hashing ("a" ∷ "b" ∷ [])) (refl, (refl, tt)) refl

abbrev pub selecting : ConfiguredStream String
selecting = record orders {
  stream_metadata = record zero_metadata {
    use_source_column_names = true;
    selected_columns = some (record { columns = "id" ∷ []; sync_new_columns = false });
  };
}

retain-is_selected_example :
    lookup email (retain_selected_columns text_hashing selecting row)
    ≡ (if is_selected_column text_hashing selecting email then lookup email row else none)
retain-is_selected_example =
    retain-is_selected text_hashing text_hashing-inj selecting row email refl

abbrev same : String → String
same c = c

-- A codec whose JSON values are texts or arrays of chunks, and which writes a number as a text
data Text : Type 0 where
  text : String → Text
  items : List String → Text

abbrev codec : Codec String String Text
codec = record {
  encode = λ v. text (if v == "7" then "7.0" else v);
  decode = λ x. elim x [ text s ↦ s | items cs ↦ "" ];
  of_chunks = items;
  as_chunks = λ x. elim x [ text s ↦ none | items cs ↦ some (some (map same cs)) ];
}

abbrev saved : StreamState String String
saved = record {
  holds_value = true;
  stream = "orders";
  namespace = "shop";
  sync_mode = "";
  state = (chunks_key, chunks two_texts) ∷ ("id", plain "7") ∷ [];
}

unmarshal-marshal_stream_example :
    (e' : StreamState String String) × (unmarshal_stream codec text_hashing
        (marshal_stream codec saved)
      ≡ some e')
    × (e'.stream ≡ "orders")
    × (e'.namespace ≡ "shop")
    × (e'.sync_mode ≡ "")
    × ((k : String) → lookup k e'.state ≡ again codec text_hashing same (lookup k saved.state))
unfolding lookup
unmarshal-marshal_stream_example =
    unmarshal-marshal_stream codec text_hashing same saved two_texts (λ cs. refl) refl
      (λ k miss. others k miss)
  where
    others : (k : String) → (chunks_key == k) ≡ false → is_plain codec (lookup k saved.state) ≡ true
    others k miss = elim (Bool-cases ("id" == k)) [
      | inl hit ↦ rw (miss, hit) refl
      | inr other ↦ rw (miss, other) refl
    ]

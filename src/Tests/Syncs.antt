-- ===== src/Tests/Syncs.antt =====
-- drivers/abstract/abstract.go, cdc.go and incremental.go, and utils/typeutils/compare.go.
use olake.Base.{
  ℕ, String, ◌≡◌, refl, Bool, true, false, none, some, List, [], ◌∷◌, ◌++◌, ◌==◌, string_eq, nat_eq,
  elem, ◌&&◌, ◌⊎◌, inr, map, if◌then◌else◌, ltb, arith,
}
use olake.Base.Assoc.{lookup, insert}
use olake.Utils.Arrays.{array_contains}
use olake.Utils.Text.{split, stream_identifier, dotted}
use olake.Types.Configured.{ConfiguredStream, cursor}
use olake.Types.State.{
  State, StateValue, Json, plain, chunks, store, load, get_chunks, stream_type, global_type,
  has_completed_backfill,
}
use olake.Types.State.Reads.{is_same}
use olake.Drivers.Abstract.Clear.{ids_of, clear_state, clear_state_lem}
use olake.Typeutils.Compare.{
  ℤ, pos, negsuc, Value, nil, is_nil_value, signed, time, other, Platform, compare_float,
}
use olake.Typeutils.Compare.Order.{is_at_most}
use olake.Typeutils.Compare.Kinds.{value_of, signed_kind, other_kind, IsLawful}
use olake.Drivers.Abstract.Incremental.{
  read_changes, prepare, format_cursor_value, backfills, has_cursors, no_chunks_left,
}
use olake.Drivers.Abstract.Incremental.Greatest.{IsGreatest, OfKind, read_changes_lem}
use olake.Drivers.Abstract.Incremental.Start.{prepare_lem}
use olake.Drivers.Abstract.Cdc.{
  Config, Run, backfilled, group_failed, returns, returns_error, run_change_stream, is_skipped,
}
use olake.Drivers.Abstract.Cdc.Waits.{launched, run_change_stream_lem, run_change_stream-failure}
use olake.Drivers.Abstract.Discovery.{
  Bucket, alive, deadline_exceeded, is_found, later_buckets, stop_after_first_bucket, IsSound,
  produce_sampled_schemas, produce_sampled_schemas_lem, store_all,
}
use olake.Tests.Sets.{text_hashing}
use olake.Tests.States.{orders, blank, table}

abbrev marked : State String String
marked = store (blank stream_type) orders "updated_at" (plain "7")

clear_state_lem_example :
    ((c : ConfiguredStream String) (k : String)
      → load (clear_state text_hashing marked (orders ∷ [])) c k ≡ (
          if elem (dotted c.stream.namespace c.stream.name) (ids_of (orders ∷ []))
          then none
          else load marked c k))
    × (has_completed_backfill text_hashing (clear_state text_hashing marked (orders ∷ [])) orders
        ≡ false)
unfolding stream_identifier
clear_state_lem_example = clear_state_lem text_hashing marked (orders ∷ []) orders refl refl

-- Floats that are numbers
abbrev pub platform : Platform ℕ
platform = record {
  less = ltb;
  float_of = λ i. elim i [ pos n ↦ n | negsuc n ↦ 0 ];
  truncated = pos;
  truncated_unsigned = λ n. n;
  print = λ v. elim v [ other s ↦ s | _ ↦ "" ];
}

platform-IsLawful : IsLawful platform
unfolding compare_float is_at_most
platform-IsLawful = record {
  floats = record {
    itself = λ a. ground arith;
    total = λ a b h. ground arith;
    trans = λ a b c h k. ground arith;
  };
  asymmetric = λ x y h. ground arith;
  prints = λ s. refl;
}

abbrev changes : List (List (String × Value ℕ))
changes =
    (("id", signed (negsuc 3)) ∷ ("name", other "b") ∷ [])
    ∷ (("id", signed (pos 5)) ∷ [])
    ∷ (("name", other "c") ∷ ("id", signed (pos 4)) ∷ [])
    ∷ []

read_changes_lem_example :
    (p s : Value ℕ) × (read_changes platform "id" "name"
        (value_of {F = ℕ} signed_kind none, value_of {F = ℕ} other_kind (some "a"))
        changes
      ≡ some (p, s))
    × IsGreatest platform "id" changes (value_of {F = ℕ} signed_kind none) p
    × IsGreatest platform "name" changes (value_of {F = ℕ} other_kind (some "a")) s
unfolding value_of OfKind lookup
read_changes_lem_example =
    read_changes_lem platform platform-IsLawful signed_kind other_kind "id" "name" changes none
      (some "a") refl ((some (negsuc 3), refl), ((some (pos 5), refl), ((some (pos 4), refl), tt)))
      ((some "b", refl), ((none, refl), ((some "c", refl), tt)))

abbrev values : Json (Value ℕ)
values = record { nil = nil }

abbrev is_null : StateValue String (Value ℕ) → Bool
is_null (plain v) = is_nil_value v
is_null (chunks c) = false

-- The layout of times, by the seconds
abbrev pub layout : ℤ → String
layout (pos n) = if n == 0 then "1970-01-01T00:00:00Z" else "later"
layout (negsuc n) = "before"

abbrev two_cursors : ConfiguredStream String
two_cursors = record orders { stream = record (table "orders") { cursor_field = "updated_at:id" } }

abbrev new_state : State String (Value ℕ)
new_state = record { type = stream_type; version = 0; global = none; streams = [] }

prepare_lem_example :
    (s' : State String (Value ℕ)) × (prepare layout values is_null text_hashing new_state
        two_cursors
        (some (time (pos 0), signed (pos 4)))
      ≡ some (backfills s'))
    × ((c : ConfiguredStream String) (k : String)
        → load s' c k ≡ (
            if is_same two_cursors c && (cursor two_cursors).1 == k
            then some (plain (signed (pos 4)))
            else if is_same two_cursors c && (cursor two_cursors).0 == k
            then some (plain (other "1970-01-01T00:00:00Z"))
            else load new_state c k))
unfolding has_cursors no_chunks_left has_completed_backfill get_chunks load array_contains cursor
    split format_cursor_value
prepare_lem_example =
    prepare_lem layout values is_null text_hashing new_state two_cursors (time (pos 0))
      (signed (pos 4)) refl refl refl refl

abbrev sequential : Config
sequential = record {
  is_sequential_mode = true;
  is_parallel_mode = false;
  is_concurrent_mode = false;
  max_connections = 2;
}

abbrev users : ConfiguredStream String
users = record orders { stream = table "users" }

abbrev global : Run String String
global = record { state = blank global_type; started = [] }

run_change_stream_lem_example :
    (r' : Run String String) × (run_change_stream text_hashing "" sequential true
        (λ s. true)
        (orders ∷ users ∷ [])
        (map backfilled ("shop.users" ∷ "shop.orders" ∷ []) ++ [])
        global
      ≡ returns r')
    × (r'.started ≡ [] ++ launched sequential)
    × (has_completed_backfill text_hashing r'.state users ≡ true)
unfolding stream_identifier is_skipped has_completed_backfill
run_change_stream_lem_example =
    run_change_stream_lem text_hashing "" sequential (λ s. true) (orders ∷ users ∷ [])
      ("shop.users" ∷ "shop.orders" ∷ []) [] global users (inr refl) refl refl refl refl

run_change_stream-failure_example :
    (r' : Run String String) × (r'.started ≡ [])
    × ((run_change_stream text_hashing "" sequential true
            (λ s. true)
            (orders ∷ users ∷ [])
            (map backfilled ("shop.users" ∷ []) ++ group_failed ∷ [])
            global
          ≡ returns r')
        ⊎ (run_change_stream text_hashing "" sequential true
              (λ s. true)
              (orders ∷ users ∷ [])
              (map backfilled ("shop.users" ∷ []) ++ group_failed ∷ [])
              global
            ≡ returns_error r'))
run_change_stream-failure_example =
    run_change_stream-failure text_hashing "" sequential true (λ s. true) (orders ∷ users ∷ [])
      ("shop.users" ∷ []) group_failed [] global refl refl refl

abbrev first_bucket : Bucket ℕ
first_bucket = record {
  before = alive;
  stored = ("shop.users", 1) ∷ ("shop.orders", 2) ∷ [];
  fails = false;
  after = alive;
}

abbrev cut_short : Bucket ℕ
cut_short = record {
  before = alive;
  stored = ("shop.users", 3) ∷ [];
  fails = true;
  after = deadline_exceeded;
}

abbrev sampled : List (String × ℕ)
sampled = ("shop.users", 3) ∷ ("shop.orders", 2) ∷ []

first_bucket-IsSound : IsSound ("shop.orders" ∷ "shop.users" ∷ []) first_bucket
unfolding is_found store_all insert lookup
first_bucket-IsSound h id there = ground arith

produce_sampled_schemas_lem_example : is_found sampled "shop.orders" ≡ true
unfolding produce_sampled_schemas later_buckets stop_after_first_bucket store_all insert
produce_sampled_schemas_lem_example =
    produce_sampled_schemas_lem ("shop.orders" ∷ "shop.users" ∷ []) first_bucket (cut_short ∷ [])
      sampled "shop.orders" first_bucket-IsSound refl refl

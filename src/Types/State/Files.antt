-- ===== src/Types/State/Files.antt =====
-- types/state.go: a stream's state in the state file, MarshalJSON and UnmarshalJSON of StreamState. The
-- fields that go-json reads and writes by itself, and the object of the state, are StreamJson.
use olake.Base.{
  String, ◌≡◌, refl, sym, ap, ◌∙◌, Bool, true, false, not, Option, none, some, List, [], ◌∷◌, arith,
  ◌==◌, string_eq, eq_iff, is_nil, map,
}
use olake.Base.{if-elim}
use olake.Base.Assoc.{lookup, insert, lookup-insert}
use olake.Types.Set.{Set, Hashing, new_set, array}
use olake.Types.State.{StateValue, chunks, plain, StreamState, chunks_key}

-- What goccy/go-json does on both ways, with JSON in `X`: of plain values, where a decoded number is a float64 and a decoded
-- time a text, and of arrays of chunks. `as_chunks` is the assertion that a decoded value is an array and, where it is, the
-- decoding of its chunks, with an inner `none` for an error.
pub record Codec (C V X : Type 0) : Type 0 where
  pub encode : V → X
  pub decode : X → V
  pub of_chunks : List C → X
  pub as_chunks : X → Option (Option (List C))

pub record StreamJson (V : Type 0) : Type 0 where
  pub stream : String
  pub namespace : String
  pub sync_mode : String
  pub state : List (String × V)

module _ {C V X : Type 0} (J : Codec C V X) where
  -- A set of chunks is written as its array.
  pub written : StateValue C V → X
  written (chunks c) = J.of_chunks (array c)
  written (plain v) = J.encode v

  pub state_map : List (String × StateValue C V) → List (String × X)
  state_map [] = []
  state_map ((k, v) ∷ m) = (k, written v) ∷ state_map m

  -- StreamState.MarshalJSON
  unfoldable pub marshal_stream : StreamState C V → StreamJson X
  unfolding state_map written
  marshal_stream e = record {
    stream = e.stream;
    namespace = e.namespace;
    sync_mode = e.sync_mode;
    state = state_map e.state;
  }

  pub stored_values : List (String × X) → List (String × StateValue C V)
  stored_values [] = []
  stored_values ((k, v) ∷ m) = (k, plain (J.decode v)) ∷ stored_values m

  -- StreamState.UnmarshalJSON; `none` is the error of chunks that do not decode. The entries of a
  -- decoded object have keys of their own.
  pub read_chunks :
      Hashing C
      → Option (Option (List C))
      → List (String × StateValue C V)
      → Option (List (String × StateValue C V))
  read_chunks HC none m = some m
  read_chunks HC (some none) m = none
  read_chunks HC (some (some cs)) m = some (insert chunks_key (chunks (new_set HC cs)) m)

  pub read_state : Hashing C → List (String × X) → Option (List (String × StateValue C V))
  unfolding read_chunks stored_values
  read_state HC m = elim (lookup chunks_key m) [
    | none ↦ some (stored_values m)
    | some raw ↦ read_chunks HC (J.as_chunks raw) (stored_values m)
  ]

  unfoldable pub unmarshal_stream : Hashing C → StreamJson X → Option (StreamState C V)
  unfolding read_state
  unmarshal_stream HC j = elim (read_state HC j.state) [
    | none ↦ none
    | some m ↦ some (record {
      holds_value = not (is_nil j.state);
      stream = j.stream;
      namespace = j.namespace;
      sync_mode = j.sync_mode;
      state = m;
    })
  ]

  -- What a value is after the file was written and read
  pub again : Hashing C → (C → C) → Option (StateValue C V) → Option (StateValue C V)
  again HC chunk_again none = none
  again HC chunk_again (some (plain v)) = some (plain (J.decode (J.encode v)))
  again HC chunk_again (some (chunks c)) = some (chunks (new_set HC (map chunk_again (array c))))

  abbrev pub is_plain : Option (StateValue C V) → Bool
  is_plain none = true
  is_plain (some (plain v)) = true
  is_plain (some (chunks c)) = false

  abbrev pub map_value : Option (StateValue C V) → Option X
  map_value none = none
  map_value (some v) = some (written v)

  lookup-state_map :
      (k : String) (m : List (String × StateValue C V))
      → lookup k (state_map m) ≡ map_value (lookup k m)
  unfolding lookup state_map written
  lookup-state_map k [] = refl
  lookup-state_map k ((i, v) ∷ m) = ground (arith, lookup-state_map k m)

  abbrev as_plain : Option X → Option (StateValue C V)
  as_plain none = none
  as_plain (some v) = some (plain (J.decode v))

  lookup-stored_values :
      (k : String) (m : List (String × X)) → lookup k (stored_values m) ≡ as_plain (lookup k m)
  unfolding lookup stored_values
  lookup-stored_values k [] = refl
  lookup-stored_values k ((i, v) ∷ m) = ground (arith, lookup-stored_values k m)

  plain-again :
      (HC : Hashing C) (chunk_again : C → C) (o : Option (StateValue C V))
      → is_plain o ≡ true
      → as_plain (map_value o) ≡ again HC chunk_again o
  unfolding again written
  plain-again HC chunk_again none h = refl
  plain-again HC chunk_again (some (plain v)) h = refl
  plain-again HC chunk_again (some (chunks c)) h = cc

  -- Where go-json reads a written array of chunks as an array of as many, each `chunk_again` of the one at its place, and a
  -- stream's state has a set under the key for chunks and plain values under all other keys, the state read from the file has
  -- under the same keys what go-json decodes from the encoded plain values, and for the set one that is built from
  -- the chunks of the old after `chunk_again`.
  pub unmarshal-marshal_stream :
      (HC : Hashing C) (chunk_again : C → C) (e : StreamState C V) (c : Set C)
      → ((cs : List C) → J.as_chunks (J.of_chunks cs) ≡ some (some (map chunk_again cs)))
      → lookup chunks_key e.state ≡ some (chunks c)
      → ((k : String) → (chunks_key == k) ≡ false → is_plain (lookup k e.state) ≡ true)
      → (e' : StreamState C V) × (unmarshal_stream HC (marshal_stream e) ≡ some e')
        × (e'.stream ≡ e.stream)
        × (e'.namespace ≡ e.namespace)
        × (e'.sync_mode ≡ e.sync_mode)
        × ((k : String) → lookup k e'.state ≡ again HC chunk_again (lookup k e.state))
  unfolding unmarshal_stream marshal_stream read_state read_chunks written again
  unmarshal-marshal_stream HC chunk_again e c law set others = (
    record {
      holds_value = not (is_nil (state_map e.state));
      stream = e.stream;
      namespace = e.namespace;
      sync_mode = e.sync_mode;
      state =
          insert chunks_key (chunks (new_set HC (map chunk_again (array c))))
            (stored_values (state_map e.state));
    },
    (let r : lookup chunks_key (state_map e.state) ≡ some (J.of_chunks (array c)) =
          lookup-state_map chunks_key e.state ∙ ap map_value set in
        rw (unmarshal_stream, r, law (array c)) refl),
    refl,
    refl,
    refl,
    λ k.
        lookup-insert chunks_key k (chunks (new_set HC (map chunk_again (array c))))
          (stored_values (state_map e.state))
        ∙ if-elim (λ o. o ≡ again HC chunk_again (lookup k e.state)) (chunks_key == k) _ _
            (λ hit.
              let q : chunks_key ≡ k = (eq_iff chunks_key k).0 hit in
              sym (ap (again HC chunk_again) (ap (λ j. lookup j e.state) (sym q) ∙ set)))
            (λ miss.
              lookup-stored_values k (state_map e.state)
              ∙ ap as_plain (lookup-state_map k e.state)
              ∙ plain-again HC chunk_again (lookup k e.state) (others k miss)),
  )

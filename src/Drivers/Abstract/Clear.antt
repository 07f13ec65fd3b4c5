-- ===== src/Drivers/Abstract/Clear.antt =====
-- drivers/abstract/abstract.go: ClearState, which makes the next sync of streams start anew.
use olake.Base.{
  String, ◌≡◌, refl, sym, ap, ◌∙◌, true, false, Option, none, some, List, [], ◌∷◌, map, arith,
  if◌then◌else◌, elem, ◌==◌, string_eq, nat_eq, eq_iff, ==-refl, find, Bool-cases, inl, inr, ap₂,
  false≢true,
}
use olake.Base.Assoc.{lookup}
use olake.Utils.Text.{dotted, empty_text, stream_identifier}
use olake.Types.Set.{Set, Hashing, remove, exists, hash_of}
use olake.Types.Set.Invariant.{exists-remove}
use olake.Types.Configured.{ConfiguredStream, stream_id}
use olake.Types.State.{
  State, StreamState, GlobalState, load, has_completed_backfill, get_chunks, as_set, chunks_key,
  in_global, in_streams, is_for, global_type,
}
use olake.Types.State.Reads.{load-find, under}

remove_ids : Hashing String → List String → Set String → Set String
remove_ids HS [] ss = ss
remove_ids HS (id ∷ ids) ss = remove_ids HS ids (remove HS ss id)

abbrev pub ids_of : {F : Type 0} → List (ConfiguredStream F) → List String
ids_of [] = []
ids_of (s ∷ ss) = stream_id s ∷ ids_of ss

cleared_streams : Hashing String → List String → Option (Set String) → Option (Set String)
unfolding remove_ids
cleared_streams HS ids none = none
cleared_streams HS ids (some ss) = some (remove_ids HS ids ss)

cleared_global :
    {V : Type 0} → Hashing String → List String → Option (GlobalState V) → Option (GlobalState V)
unfolding cleared_streams
cleared_global HS ids none = none
cleared_global HS ids (some g) = some (record g { streams = cleared_streams HS ids g.streams })

module _ {C V : Type 0} where
  -- One round of the loop over the states of streams
  clear_entry : List String → StreamState C V → StreamState C V
  clear_entry ids e =
      if elem (dotted e.namespace e.stream) ids
      then record e { holds_value = false; state = [] }
      else e

  clear_ids : Hashing String → State C V → List String → State C V
  unfolding cleared_global clear_entry
  clear_ids HS s ids = record s {
    global = cleared_global HS ids s.global;
    streams = map (clear_entry ids) s.streams;
  }

-- ClearState, on a state that is there
unfoldable pub clear_state :
    {C V F : Type 0} → Hashing String → State C V → List (ConfiguredStream F) → State C V
unfolding clear_ids
clear_state HS s streams = clear_ids HS s (ids_of streams)

stays_out :
    (HS : Hashing String) (ids : List String) (ss : Set String) (id : String)
    → exists HS ss id ≡ false
    → exists HS (remove_ids HS ids ss) id ≡ false
unfolding remove_ids
stays_out HS [] ss id h = h
stays_out HS (i ∷ ids) ss id h =
    stays_out HS ids (remove HS ss i) id (ground (arith, exists-remove HS ss i id))

goes_out :
    (HS : Hashing String) (ids : List String) (ss : Set String) (id : String)
    → elem id ids ≡ true
    → exists HS (remove_ids HS ids ss) id ≡ false
unfolding remove_ids
goes_out HS [] ss id h = absurd (false≢true h)
goes_out HS (i ∷ ids) ss id h = elim (Bool-cases (i == id)) [
  | inl hit ↦ stays_out HS ids (remove HS ss i) id (
      ground (
        arith,
        exists-remove HS ss i id,
        eq_iff i id,
        ==-refl (hash_of HS ss i),
        ap (hash_of HS ss) ((eq_iff i id).0 hit),
      ))
  | inr miss ↦ goes_out HS ids (remove HS ss i) id (ground arith)
]

out_of_streams :
    (HS : Hashing String) (ids : List String) (ss : Option (Set String)) (id : String)
    → elem id ids ≡ true
    → in_streams HS id (cleared_streams HS ids ss) ≡ false
unfolding in_streams cleared_streams
out_of_streams HS ids none id h = refl
out_of_streams HS ids (some ss) id h = goes_out HS ids ss id h

out_of_global :
    {V : Type 0} (HS : Hashing String) (ids : List String) (g : Option (GlobalState V))
    (id : String)
    → elem id ids ≡ true
    → in_global HS id (cleared_global HS ids g) ≡ false
unfolding in_global cleared_global
out_of_global HS ids none id h = refl
out_of_global HS ids (some g) id h = out_of_streams HS ids g.streams id h

module _ {C V F : Type 0} where
  dotted_for :
      (b : ConfiguredStream F) (e : StreamState C V)
      → is_for b e ≡ true
      → dotted e.namespace e.stream ≡ dotted b.stream.namespace b.stream.name
  dotted_for b e h =
      ap₂ dotted ((eq_iff e.namespace b.stream.namespace).0 (ground arith))
        ((eq_iff e.stream b.stream.name).0 (ground arith))

  under-clear :
      (ids : List String) (b : ConfiguredStream F) (k : String) (es : List (StreamState C V))
      → under k (find (is_for b) (map (clear_entry ids) es)) ≡ (
          if elem (dotted b.stream.namespace b.stream.name) ids
          then none
          else under k (find (is_for b) es))
  unfolding clear_entry under lookup
  under-clear ids b k [] = ground arith
  under-clear ids b k (e ∷ es) = elim (Bool-cases (is_for b e)) [
    | inl hit ↦
        let same = ap (λ x. elem x ids) (dotted_for b e hit) in
        elim (Bool-cases (elem (dotted b.stream.namespace b.stream.name) ids)) [
          | inl dropped ↦ rw (same, dropped, hit) (ground arith)
          | inr spared ↦ rw (same, spared, hit) (ground arith)
        ]
    | inr miss ↦ ground (arith, under-clear ids b k es)
  ]

  forgets_load :
      (HS : Hashing String) (s : State C V) (streams : List (ConfiguredStream F))
      (b : ConfiguredStream F) (k : String)
      → load (clear_state HS s streams) b k ≡ (
          if elem (dotted b.stream.namespace b.stream.name) (ids_of streams)
          then none
          else load s b k)
  unfolding clear_state
  forgets_load HS s streams b k =
      load-find (clear_state HS s streams) b k
      ∙ under-clear (ids_of streams) b k s.streams
      ∙ ap
          (λ o. if elem (dotted b.stream.namespace b.stream.name) (ids_of streams) then none else o)
          (sym (load-find s b k))

  not_completed :
      (HS : Hashing String) (s : State C V) (streams : List (ConfiguredStream F))
      (b : ConfiguredStream F)
      → elem (dotted b.stream.namespace b.stream.name) (ids_of streams) ≡ true
      → elem (stream_id b) (ids_of streams) ≡ true
      → has_completed_backfill HS (clear_state HS s streams) b ≡ false
  unfolding has_completed_backfill get_chunks as_set clear_state clear_ids
  not_completed HS s streams b d there =
      let missing : load (clear_state HS s streams) b chunks_key ≡ none =
        forgets_load HS s streams b chunks_key ∙ rw d refl in
      elim (Bool-cases (s.type == global_type)) [
        | inl global ↦ rw global (out_of_global HS (ids_of streams) s.global (stream_id b) there)
        | inr apart ↦ rw (apart, missing) refl
      ]

  -- ClearState: every key of a stream whose namespace and name, joined by a dot, are the id of a stream to clear reads as
  -- missing, and every other key as before. For a stream with a namespace that is to be cleared,
  -- HasCompletedBackfill does not hold afterwards, in a state of either kind.
  pub clear_state_lem :
      (HS : Hashing String) (s : State C V) (streams : List (ConfiguredStream F))
      (b : ConfiguredStream F)
      → (b.stream.namespace == empty_text) ≡ false
      → elem (stream_id b) (ids_of streams) ≡ true
      → ((c : ConfiguredStream F) (k : String)
          → load (clear_state HS s streams) c k ≡ (
              if elem (dotted c.stream.namespace c.stream.name) (ids_of streams)
              then none
              else load s c k))
        × (has_completed_backfill HS (clear_state HS s streams) b ≡ false)
  unfolding stream_identifier
  clear_state_lem HS s streams b named there =
      (forgets_load HS s streams, not_completed HS s streams b (rw named at there) there)

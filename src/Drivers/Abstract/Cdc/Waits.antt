-- ===== src/Drivers/Abstract/Cdc/Waits.antt =====
-- drivers/abstract/cdc.go: no reader begins before the backfills are over.
use olake.Base.{
  ℕ, zero, suc, String, ◌≡◌, refl, sym, ap, ◌∙◌, Bool, true, false, ◌&&◌, ◌||◌, Option, none, some,
  List, [], ◌∷◌, ◌++◌, map, length, all, arith, if◌then◌else◌, ◌==◌, string_eq, elem, ◌⊎◌, inl, inr,
  leb, Bool-cases, append_nil,
}
use olake.Types.Set.{Hashing}
use olake.Types.Configured.{ConfiguredStream, stream_id}
use olake.Types.State.{has_completed_backfill, set_global, global_type}
use olake.Types.State.Chunks.{has_completed-set_global}
use olake.Drivers.Abstract.Cdc.{
  Event, backfilled, context_done, group_failed, channel_closed, fails, completes, processed,
  wait_for_backfill_completion, Config, Run, indices, returns_error, returns, is_skipped,
  start_stream, start_rest, after_wait, run_change_stream,
}

abbrev pub is_failure : Event → Bool
is_failure (backfilled id) = false
is_failure _ = true

abbrev one_by_one : {S : Type 0} → (String → S → S) → List String → S → S
one_by_one f [] s = s
one_by_one f (id ∷ ids) s = one_by_one f ids (f id s)

wait_completes :
    {S : Type 0} (process : String → S → S × Bool) (f : String → S → S)
    → ((id : String) (s : S) → process id s ≡ (f id s, true))
    → (ids : List String) (events : List Event) (s : S)
    → wait_for_backfill_completion process (length ids) (map backfilled ids ++ events) s
      ≡ completes (one_by_one f ids s)
unfolding wait_for_backfill_completion processed
wait_completes process f same [] events s = refl
wait_completes process f same (id ∷ ids) events s =
    rw (same id s) (wait_completes process f same ids events (f id s))

wait_stops :
    {S : Type 0} (process : String → S → S × Bool) (f : String → S → S)
    → ((id : String) (s : S) → process id s ≡ (f id s, true))
    → (n : ℕ) (ids : List String) (e : Event) (events : List Event) (s : S) → is_failure e ≡ true
    → leb n (length ids) ≡ false
    → wait_for_backfill_completion process n (map backfilled ids ++ e ∷ events) s
      ≡ fails e (one_by_one f ids s)
unfolding wait_for_backfill_completion processed
wait_stops process f same zero ids e events s h few = ground arith
wait_stops process f same (suc n) [] (backfilled id) events s h few = ground arith
wait_stops process f same (suc n) [] context_done events s h few = refl
wait_stops process f same (suc n) [] group_failed events s h few = refl
wait_stops process f same (suc n) [] channel_closed events s h few = refl
wait_stops process f same (suc n) (id ∷ ids) e events s h few =
    rw (same id s) (wait_stops process f same n ids e events (f id s) h (ground arith))

-- The readers that a mode asks for at the end
abbrev pub launched : Config → List (Option ℕ)
launched c =
    if c.is_parallel_mode
    then indices c.max_connections
    else if c.is_sequential_mode
    then some 0 ∷ []
    else []

module _ {C V : Type 0} where
  state-start_rest : (c : Config) (r : Run C V) → (start_rest c r).state ≡ r.state
  unfolding start_rest
  state-start_rest c r = elim (Bool-cases c.is_parallel_mode) [
    | inl p ↦ rw p refl
    | inr p ↦ elim (Bool-cases c.is_sequential_mode) [
      | inl q ↦ rw (p, q) refl
      | inr q ↦ rw (p, q) refl
    ]
  ]

  started-start_rest :
      (c : Config) (r : Run C V) → (start_rest c r).started ≡ r.started ++ launched c
  unfolding start_rest
  started-start_rest c r = elim (Bool-cases c.is_parallel_mode) [
    | inl p ↦ rw p refl
    | inr p ↦ elim (Bool-cases c.is_sequential_mode) [
      | inl q ↦ rw (p, q) refl
      | inr q ↦ rw (p, q) (sym (append_nil r.started))
    ]
  ]

  after_failure :
      (c : Config) (e : Event) (r : Run C V)
      → (after_wait c (fails e r) ≡ returns r) ⊎ (after_wait c (fails e r) ≡ returns_error r)
  unfolding after_wait
  after_failure c (backfilled id) r = inr refl
  after_failure c context_done r = inr refl
  after_failure c group_failed r = inl refl
  after_failure c channel_closed r = inr refl

module _ {C V : Type 0} (HS : Hashing String) (nil : V) where
  marked : String → Run C V → Run C V
  marked id r = record r { state = set_global HS r.state nil none (id ∷ []) }

  started_same : (ids : List String) (r : Run C V) → (one_by_one marked ids r).started ≡ r.started
  unfolding marked
  started_same [] r = refl
  started_same (id ∷ ids) r = started_same ids (marked id r)

  marked-type :
      (id : String) (r : Run C V)
      → r.state.type ≡ global_type
      → (marked id r).state.type ≡ global_type
  unfolding marked set_global
  marked-type id r h = h

module _ {C V F : Type 0} (HS : Hashing String) (nil : V) where
  start_stream-marked :
      (c : Config) (streams : List (ConfiguredStream F))
      → c.is_concurrent_mode ≡ false
      → (id : String) (r : Run C V)
      → start_stream HS nil c streams id r ≡ (marked HS nil id r, true)
  unfolding start_stream marked
  start_stream-marked c streams h id r = rw h refl

  completed-marked :
      (id : String) (r : Run C V)
      → r.state.type ≡ global_type
      → (b : ConfiguredStream F)
      → (has_completed_backfill HS r.state b ≡ true) ⊎ (elem (stream_id b) (id ∷ []) ≡ true)
      → has_completed_backfill HS (marked HS nil id r).state b ≡ true
  unfolding marked
  completed-marked id r ty b h = has_completed-set_global HS r.state nil none (id ∷ []) b ty h

  marked_completed :
      (ids : List String) (r : Run C V)
      → r.state.type ≡ global_type
      → (b : ConfiguredStream F)
      → (has_completed_backfill HS r.state b ≡ true) ⊎ (elem (stream_id b) ids ≡ true)
      → has_completed_backfill HS (one_by_one (marked HS nil) ids r).state b ≡ true
  marked_completed [] r ty b (inl h) = h
  marked_completed [] r ty b (inr h) = ground arith
  marked_completed (id ∷ ids) r ty b h =
      marked_completed ids (marked HS nil id r) (marked-type HS nil id r ty) b (elim h [
        | inl before ↦ inl (completed-marked id r ty b (inl before))
        | inr named ↦ elim (Bool-cases (id == stream_id b)) [
          | inl hit ↦ inl (completed-marked id r ty b (inr (ground arith)))
          | inr miss ↦ inr (ground arith)
        ]
      ])

  -- With no reader per stream, in a state of type GLOBAL, with PreCDC and the backfills queued without an error and as many
  -- signals as there are streams: RunChangeStream queues the readers that its mode asks for, after those that
  -- were there, and a stream that is named in a signal, or whose backfill was complete, has a complete backfill.
  pub run_change_stream_lem :
      (c : Config) (queued : ConfiguredStream F → Bool) (streams : List (ConfiguredStream F))
      (ids : List String) (events : List Event) (r : Run C V) (b : ConfiguredStream F)
      → (has_completed_backfill HS r.state b ≡ true) ⊎ (elem (stream_id b) ids ≡ true)
      → c.is_concurrent_mode ≡ false
      → r.state.type ≡ global_type
      → all (λ s. is_skipped HS nil r.state s || queued s) streams ≡ true
      → length ids ≡ length streams
      → (r' : Run C V) × (run_change_stream HS nil c true queued streams
            (map backfilled ids ++ events)
            r
          ≡ returns r')
        × (r'.started ≡ r.started ++ launched c)
        × (has_completed_backfill HS r'.state b ≡ true)
  unfolding run_change_stream after_wait start_rest
  run_change_stream_lem c queued streams ids events r b k h ty q n =
      let r' = one_by_one (marked HS nil) ids r in
      let waited =
        wait_completes (start_stream HS nil c streams) (marked HS nil)
          (start_stream-marked c streams h) ids events r in
      (
        start_rest c r',
        rw (q, sym n, waited) refl,
        started-start_rest c r' ∙ ap (λ l. l ++ launched c) (started_same HS nil ids r),
        ap (λ s. has_completed_backfill HS s b) (state-start_rest c r')
            ∙ marked_completed ids r ty b k,
      )

  -- With no reader per stream, and fewer signals than streams before one of the contexts ends or the channel is closed:
  -- RunChangeStream returns, and no reader has been queued.
  pub run_change_stream-failure :
      (c : Config) (pre_cdc : Bool) (queued : ConfiguredStream F → Bool)
      (streams : List (ConfiguredStream F)) (ids : List String) (e : Event) (events : List Event)
      (r : Run C V)
      → c.is_concurrent_mode ≡ false
      → is_failure e ≡ true
      → leb (length streams) (length ids) ≡ false
      → (r' : Run C V) × (r'.started ≡ r.started)
        × ((run_change_stream HS nil c pre_cdc queued streams (map backfilled ids ++ e ∷ events) r
              ≡ returns r')
            ⊎ (run_change_stream HS nil c pre_cdc queued streams
                  (map backfilled ids ++ e ∷ events)
                  r
                ≡ returns_error r'))
  unfolding run_change_stream
  run_change_stream-failure c pre_cdc queued streams ids e events r h f few =
      let stopped =
        wait_stops (start_stream HS nil c streams) (marked HS nil) (start_stream-marked c streams h)
          (length streams) ids e events r f few in
      let r' = one_by_one (marked HS nil) ids r in
      elim (Bool-cases (pre_cdc && all (λ s. is_skipped HS nil r.state s || queued s) streams)) [
        | inl begins ↦ (r', started_same HS nil ids r, rw (begins, stopped) (after_failure c e r'))
        | inr never ↦ (r, refl, inr (rw never refl))
      ]

-- ===== src/Drivers/Abstract/Incremental/Start.antt =====
-- drivers/abstract/incremental.go: the cursors in the state before a backfill.
use olake.Base.{
  String, ◌≡◌, refl, ap, ◌∙◌, Bool, true, false, some, ◌&&◌, arith, if◌then◌else◌, ◌==◌, string_eq,
}
use olake.Typeutils.Compare.{Value, ℤ}
use olake.Utils.Text.{empty_text}
use olake.Types.Set.{Hashing}
use olake.Types.Configured.{ConfiguredStream, cursor}
use olake.Types.State.{State, StateValue, plain, Json, load, store, set_cursor, reset_cursor}
use olake.Types.State.Reads.{is_same, load-store, load-reset_cursor}
use olake.Drivers.Abstract.Incremental.{
  backfills, has_cursors, no_chunks_left, set_first_cursors, prepare, format_cursor_value,
}

module _ {C G : Type 0} (formatted : ℤ → String) where
  -- What a state keeps of a value that is fetched
  abbrev pub kept : Value G → StateValue C (Value G)
  kept v = plain (format_cursor_value formatted v)

module _ {C F G : Type 0} (formatted : ℤ → String) where
  -- The reads of a state in which both cursors of a stream are set
  set_first_cursors-load :
      (s : State C (Value G)) (b : ConfiguredStream F) (p q : Value G)
      → ((cursor b).0 == empty_text) ≡ false
      → ((cursor b).1 == empty_text) ≡ false
      → (c : ConfiguredStream F) (k : String)
      → load (set_first_cursors formatted s b p q) c k ≡ (
          if is_same b c && (cursor b).1 == k
          then some (kept formatted q)
          else if is_same b c && (cursor b).0 == k
          then some (kept formatted p)
          else load s c k)
  unfolding set_first_cursors set_cursor
  set_first_cursors-load s b p q h1 h2 c k =
      rw (h1, h2)
        (load-store (store (reset_cursor s b) b (cursor b).0 (kept formatted p)) b c (cursor b).1 k
            (kept formatted q)
          ∙ ap (λ o. if is_same b c && (cursor b).1 == k then some (kept formatted q) else o)
              (load-store (reset_cursor s b) b c (cursor b).0 k (kept formatted p)
                ∙ ap (λ o. if is_same b c && (cursor b).0 == k then some (kept formatted p) else o)
                    (load-reset_cursor s b c k))
          ∙ ground arith)

  -- Where a backfill begins, with two cursors that have names and no chunks in the state: Incremental sets each cursor of the
  -- stream to what FormatCursorValue makes of the value fetched for it, times and object ids as texts, the secondary one last, and changes no other key and no other stream.
  pub prepare_lem :
      (J : Json (Value G)) (is_null : StateValue C (Value G) → Bool) (HS : Hashing String)
      (s : State C (Value G)) (b : ConfiguredStream F) (p q : Value G)
      → has_cursors J is_null HS s b ≡ false
      → no_chunks_left s b ≡ true
      → ((cursor b).0 == empty_text) ≡ false
      → ((cursor b).1 == empty_text) ≡ false
      → (s' : State C (Value G)) × (prepare formatted J is_null HS s b (some (p, q))
          ≡ some (backfills s'))
        × ((c : ConfiguredStream F) (k : String)
            → load s' c k ≡ (
                if is_same b c && (cursor b).1 == k
                then some (kept formatted q)
                else if is_same b c && (cursor b).0 == k
                then some (kept formatted p)
                else load s c k))
  unfolding prepare
  prepare_lem J is_null HS s b p q none_yet no_chunks h1 h2 = (
    set_first_cursors formatted s b p q,
    rw (none_yet, no_chunks) refl,
    set_first_cursors-load s b p q h1 h2,
  )

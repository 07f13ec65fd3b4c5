-- ===== src/Drivers/Abstract/Incremental/Thread.antt =====
-- drivers/abstract/incremental.go: the attempts at reading the changes of a stream, each under a thread that is named for the
-- cursors in the state. The destination commits the rows of a thread with its name and the cursors after them in one step, and nothing
-- where there are no rows. `read` is what the source has after two cursors, and the cursors after that; `reformat_value`
-- is ReformatValue on a cursor of the state; `reread` is what JSON makes of a value that is written and read as `any`.
use olake.Base.{
  String, ◌≡◌, Bool, not, ◌&&◌, ◌||◌, Option, none, some, List, [], ◌∷◌, ◌++◌, if◌then◌else◌, ◌==◌,
  string_eq, is_nil, ◌⊎◌,
}
use olake.Utils.Text.{empty_text}
use olake.Types.DataType.{DataType}
use olake.Typeutils.Compare.{Value, ℤ, is_nil_value}
use olake.Drivers.Abstract.Incremental.{format_cursor_value, increment_cursor_from_state}
use olake.Drivers.Abstract.Backfill.{
  Trouble, read_fails, close_answer_lost, cancelled_early, cancelled_late, nothing_fails,
}

-- The values of the primary and of the secondary cursor
abbrev pub Cursors : Type 0 → Type 0
Cursors F = Value F × Value F

-- The State of a MetadataState: nil, a text without the cursors, or the text of the cursors
pub data Stored (F : Type 0) : Type 0 where
  no_state no_cursors : Stored F
  cursors : Cursors F → Stored F

pub record Site (F Row : Type 0) : Type 0 where
  -- of the state, and of the destination
  pub saved : Cursors F
  pub metadata : Option (String × Stored F)
  pub table : List Row

pub data Attempt (F Row : Type 0) : Type 0 where
  fails : Site F Row → Attempt F Row
  -- the context of the group is done, and the retries with it
  stops : Site F Row → Attempt F Row
  succeeds : Site F Row → Attempt F Row

-- What the metadata says of a thread
unfoldable pub found_for : {F : Type 0} → String → Option (String × Stored F) → Stored F
found_for thread none = no_state
found_for thread (some (id, st)) = if id == thread then st else no_state

abbrev pub has_name : String → Bool
has_name cursor = not (cursor == empty_text)

module _ {F : Type 0} (formatted : ℤ → String) (reread : Value F → Value F)
    (type_of : String → Option DataType) (reformat_value : DataType → Value F → Option (Value F))
    (primary secondary : String) where
  abbrev pub typed : Cursors F → Option (Cursors F)
  typed = increment_cursor_from_state type_of reformat_value primary secondary

  abbrev pub format_both : Cursors F → Cursors F
  format_both (p, q) = (format_cursor_value formatted p, format_cursor_value formatted q)

  abbrev pub reread_both : Cursors F → Cursors F
  reread_both (p, q) = (reread p, reread q)

  -- SetCursor of both cursors: of a secondary one without a name it does nothing.
  abbrev pub saved_after : Cursors F → Cursors F → Cursors F
  saved_after (p, q) (old_p, old_q) = (
    format_cursor_value formatted p,
    if has_name secondary then format_cursor_value formatted q else old_q,
  )

  abbrev pub save : {Row : Type 0} → Cursors F → Site F Row → Site F Row
  save k s = record s { saved = saved_after k s.saved }

  abbrev pub cursor_missing : Cursors F → Bool
  cursor_missing (p, q) = is_nil_value p || (has_name secondary && is_nil_value q)

  module _ {Row : Type 0} (thread_id : Cursors F → String)
      (read : Cursors F → List Row × Cursors F) where
    pub commit : Cursors F → Site F Row → Site F Row
    commit k s =
        let (rows, next) = read k in
        if is_nil rows then s else record s {
          metadata = some (thread_id k, cursors (format_both next));
          table = s.table ++ rows;
        }

    pub stream_changes : Trouble → Cursors F → Site F Row → Attempt F Row
    unfolding commit
    stream_changes close_answer_lost k s = fails (commit k s)
    stream_changes cancelled_early k s = stops s
    stream_changes cancelled_late k s = stops (commit k s)
    stream_changes nothing_fails k s = succeeds (save (read k).1 (commit k s))
    stream_changes _ k s = fails s

    -- With the cursors of the metadata nothing is read, and the writer is closed with no rows.
    pub take_cursors : Trouble → Cursors F → Site F Row → Attempt F Row
    take_cursors nothing_fails next s = succeeds (save next s)
    take_cursors read_fails next s = succeeds (save next s)
    take_cursors cancelled_early next s = stops s
    take_cursors cancelled_late next s = stops s
    take_cursors _ next s = fails s

    -- An error before anything is read
    pub refuse : Trouble → Site F Row → Attempt F Row
    refuse cancelled_early s = stops s
    refuse cancelled_late s = stops s
    refuse _ s = fails s

    -- A thread that the metadata knows has its cursors from there.
    pub resume : Trouble → Cursors F → Stored F → Site F Row → Attempt F Row
    unfolding stream_changes take_cursors refuse
    resume trouble k no_state s = stream_changes trouble k s
    resume trouble k no_cursors s = refuse trouble s
    resume trouble k (cursors written) s =
        if cursor_missing (reread_both written)
        then refuse trouble s
        else take_cursors trouble (reread_both written) s

    pub attempt : Trouble → Site F Row → Attempt F Row
    unfolding resume found_for
    attempt trouble s = elim (typed s.saved) [
      | none ↦ refuse trouble s
      | some k ↦ resume trouble k (found_for (thread_id k) s.metadata) s
    ]

    pub try_again : (Site F Row → Attempt F Row) → Attempt F Row → Attempt F Row
    try_again again (fails s) = again s
    try_again again (stops s) = stops s
    try_again again (succeeds s) = succeeds s

    unfoldable pub with_retries : List Trouble → Site F Row → Attempt F Row
    unfolding attempt try_again
    with_retries [] s = fails s
    with_retries (t ∷ ts) s = try_again (λ s'. with_retries ts s') (attempt t s)

    -- The rows are all in the table, and the cursors after them are in the state, as they were after the last row or as
    -- JSON gives them back.
    pub record Read (k : Cursors F) (s s' : Site F Row) : Type 0 where
      pub rows_once : s'.table ≡ s.table ++ (read k).0
      pub cursors_saved :
          (s'.saved ≡ saved_after (read k).1 s.saved)
          ⊎ (s'.saved ≡ saved_after (reread_both (format_both (read k).1)) s.saved)

    -- The rows are committed, but the state does not know it.
    pub record Unsaved (k : Cursors F) (s s' : Site F Row) : Type 0 where
      pub rows_there : s'.table ≡ s.table ++ (read k).0
      pub old_cursors : s'.saved ≡ s.saved
      pub known : found_for (thread_id k) s'.metadata ≡ cursors (format_both (read k).1)

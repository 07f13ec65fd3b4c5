-- ===== src/Tests/Attempts.antt =====
-- drivers/abstract/prerequisites.go, and the threads of drivers/abstract/incremental.go.
use olake.Base.{
  ℕ, String, ◌≡◌, true, false, Option, not, ◌&&◌, none, some, List, [], ◌∷◌, ◌++◌, map, filterb,
}
use olake.Types.DataType.{DataType, int64}
use olake.Typeutils.Compare.{Value, nil, signed, float, pos}
use olake.Drivers.Abstract.Incremental.Thread.{Site, Cursors, cursors}
use olake.Drivers.Abstract.Prerequisites.{
  Prerequisite, evaluate_check, run_prerequisites, run_prerequisites_lem,
}

-- A table whose cursor is a number below ten
abbrev thread_of : Cursors ℕ → String
thread_of (nil, q) = "orders_nil"
thread_of _ = "orders_n"

abbrev rows_after : Cursors ℕ → List ℕ × Cursors ℕ
rows_after k = (3 ∷ 9 ∷ [], (signed (pos 9), nil))

abbrev type_of : String → Option DataType
type_of column = some int64

abbrev reformat_value : DataType → Value ℕ → Option (Value ℕ)
reformat_value t v = some v

-- JSON makes floats of numbers.
abbrev as_floats : Value ℕ → Value ℕ
as_floats (signed (pos n)) = float n
as_floats v = v

abbrev before_sync : Site ℕ ℕ
before_sync = record {
  saved = (nil, nil);
  metadata = some ("orders_n", cursors (signed (pos 0), nil));
  table = 1 ∷ [];
}

abbrev checks : List Prerequisite
checks =
    record {
      name = "wal_level";
      required = true;
      recommended = "logical";
      check = record { current = "logical"; ok = true; err = none };
    }
    ∷ record {
      name = "replica";
      required = false;
      recommended = "on";
      check = record { current = "off"; ok = false; err = none };
    }
    ∷ record {
      name = "slot";
      required = true;
      recommended = "there";
      check = record { current = ""; ok = true; err = some "timeout" };
    }
    ∷ []

run_prerequisites_lem_example :
    run_prerequisites checks
    ≡ filterb (λ r. r.required && not r.passed) (map evaluate_check checks)
      ++ (filterb (λ r. not r.required && not r.passed) (map evaluate_check checks)
          ++ filterb (λ r. r.passed) (map evaluate_check checks))
run_prerequisites_lem_example = run_prerequisites_lem checks

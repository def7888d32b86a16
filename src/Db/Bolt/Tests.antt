-- ===== src/Db/Bolt/Tests.antt =====
-- The wrapper of db/bbolt over association lists.
use arcella_lib.Prelude.Text.{codes}
use arcella_lib.Prelude.Dict
use arcella_lib.Db.Bolt.{BBolt, ok, get, get_all, update, bucket_not_found, panics, stop}
use arcella_lib.Db.Bolt.Store.{Call, puts, puts_all, deletes}
use arcella_lib.Db.Bolt.Laws.{view}
use arcella_lib.Db.Bolt.Runs
use arcella_lib.Db.Bolt.Runs.{run, replay, read}
use arcella_lib.Db.Bolt.Log
use arcella_lib.Db.Bolt.Log.{add_all, listed}
use arcella_lib.Db.Bolt.Refine.{call}
use arcella_lib.Db.Bolt.Assoc.{Boxes, assoc, assoc-IsBolt, assoc-IsOrdered, sequence_new}
use arcella_lib.Prelude.{◌∷◌, ◌≡◌, arith, [], List, some, true, refl, ℕ}

abbrev box_name : List ℕ
box_name = codes "log"

abbrev opened : BBolt Boxes
opened = record { db = some ((box_name, record { seq = 0; items = [] }) ∷ []) }

abbrev calls : List Call
calls =
    puts box_name (codes "a") (codes "1")
    ∷ puts (codes "no") (codes "a") (codes "2")
    ∷ puts_all box_name (
        record { key = codes "a"; value = codes "3" } ∷ record { key = codes "b"; value = [] } ∷ [])
    ∷ deletes box_name (codes "b")
    ∷ []

results : (run assoc calls opened).1 ≡ (0, ok) ∷ (0, bucket_not_found) ∷ (0, ok) ∷ (0, ok) ∷ []
unfolding run call update Dict.lookup Dict.insert
results = refl

stopped_panics : (get assoc (stop opened true).0 box_name []).1 ≡ panics
unfolding get stop
stopped_panics = refl

get-run_example :
    get assoc (run assoc calls opened).0 box_name (codes "a")
    ≡ read
        (replay calls
          (run assoc calls opened).1
          (view assoc ((box_name, record { seq = 0; items = [] }) ∷ [])))
        box_name
        (codes "a")
get-run_example =
    Runs.get-run assoc assoc-IsBolt calls opened ((box_name, record { seq = 0; items = [] }) ∷ [])
      box_name (codes "a") refl

get_all-add_all_example :
    get_all assoc (add_all assoc box_name (codes "x" ∷ codes "y" ∷ []) opened).0 box_name
    ≡ (listed 0 (add_all assoc box_name (codes "x" ∷ codes "y" ∷ []) opened).1, ok)
unfolding Dict.lookup
get_all-add_all_example =
    Log.get_all-add_all assoc box_name assoc-IsBolt assoc-IsOrdered (codes "x" ∷ codes "y" ∷ [])
      opened ((box_name, record { seq = 0; items = [] }) ∷ []) (omega arith) refl refl
      (sequence_new box_name) refl

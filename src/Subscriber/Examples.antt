-- ===== src/Subscriber/Examples.antt =====
-- The theorems on the log of a subscriber, at two iterators.
use zip_log_ae.Base.{List, [], ◌∷◌, arith, All, length}
use zip_log_ae.Subscriber.Log.{Log, new_log}
use zip_log_ae.Subscriber.Iterator.{Iterator, next_entry, new_iterator}
use zip_log_ae.Subscriber.Recycling.Runs.{Reaches, stop, moved, IsLive, start, started-IsLive}

abbrev its : List Iterator
its = start 2 ((0, 0) ∷ (1, 1) ∷ [])

abbrev log : Log
log = new_log (length its)

abbrev first : Iterator
first = new_iterator 0 0 2

abbrev second : List Iterator
second = new_iterator 1 1 2 ∷ []

run : Reaches log its (next_entry log first).1 ((next_entry log first).2 ∷ second)
run =
    moved log (next_entry log first).1 first [] second ((next_entry log first).2 ∷ second)
      (stop (next_entry log first).1 ((next_entry log first).2 ∷ second))

started-IsLive_example : All (IsLive (next_entry log first).1) ((next_entry log first).2 ∷ second)
started-IsLive_example =
    started-IsLive 2 ((0, 0) ∷ (1, 1) ∷ []) (next_entry log first).1
      ((next_entry log first).2 ∷ second) (omega arith, (omega arith, tt)) run

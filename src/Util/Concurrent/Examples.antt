-- ===== src/Util/Concurrent/Examples.antt =====
-- A queue and a bag while their producer and consumer take turns.
use zip_log_ae.Base.{ℕ, ◌≡◌, List, [], ◌∷◌, arith}
use zip_log_ae.Util.Concurrent.{
  Step, emplace, publish, poll, new_queue, new_bag, new_reader, queue_answers, bag_answers,
}
use zip_log_ae.Util.Concurrent.Fifo.{fifo_answers}
use zip_log_ae.Util.Concurrent.Bags.{answers-fifo}

-- A poll between the two steps of an addition does not see the element.
abbrev steps : List (Step ℕ)
steps = poll ∷ emplace 7 ∷ poll ∷ publish ∷ emplace 8 ∷ poll ∷ publish ∷ poll ∷ poll ∷ []

answers-fifo_example :
    (queue_answers new_queue steps ≡ fifo_answers [] [] steps)
    × (bag_answers new_bag new_reader steps ≡ fifo_answers [] [] steps)
answers-fifo_example = answers-fifo steps (omega arith) tt

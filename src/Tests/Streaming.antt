-- ===== src/Tests/Streaming.antt =====
-- Iterators over concrete lists.
use abscom.Prelude.{if◌then◌else◌, ◌==◌, ℕ, ◌≡◌, refl, Option, none, some, List, [], ◌∷◌}
use abscom.Prelude.Run.{done}
use abscom.Itertools.Defs.{chain, cycle, items_or_nil, take_item, next_chain, iter_next, next_all}
use abscom.Itertools.Streams.{answers, rounds, in_a_row, chain-answers, cycle-rounds}

-- Values are addresses: 100 and 101 are lists.
abbrev pair : List ℕ
pair = 1 ∷ 2 ∷ []

abbrev items_in : ℕ → Option (List ℕ)
items_in v = if v == 100 then some pair else if v == 101 then some (7 ∷ []) else none

chain_run :
    next_all 0 items_in 4 (chain 0 items_in (some 100) (some 101))
    ≡ done (some 1 ∷ some 2 ∷ some 7 ∷ some 0 ∷ [])
unfolding next_all chain iter_next next_chain items_or_nil take_item
chain_run = refl

chain-answers_example :
    next_all 0 items_in 5 (chain 0 items_in (some 100) none)
    ≡ done (answers 0 5 (in_a_row 0 items_in (some 100) 0))
chain-answers_example = chain-answers 0 items_in 5 (some 100) none

cycle-rounds_example :
    next_all 0 items_in 5 (cycle 0 items_in (some 100)) ≡ done (rounds 5 1 (2 ∷ []) pair)
cycle-rounds_example = cycle-rounds 0 items_in 5 100 1 (2 ∷ []) refl

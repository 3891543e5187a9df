-- ===== src/Primitives/Tests.antt =====
-- Coins and block numbers: examples for the laws, and runs.
use nimiq_core_rs_albatross.Base.{ℕ, ◌≤◌, ◌<◌, ◌≡◌, true, false, some, arith}
use nimiq_core_rs_albatross.Primitives.Policy.{
  election_block_after, election_block_before, last_election_block, is_election_block_at,
  macro_block_after, macro_block_before, last_macro_block, is_macro_block_at,
}
use nimiq_core_rs_albatross.Primitives.Policy.Schedule.{macro_neighbours, election_neighbours}

macro_neighbours_example :
    (200 < macro_block_after 200)
    × (is_macro_block_at (macro_block_after 200) ≡ true)
    × ((m : ℕ) → 200 < m → m < macro_block_after 200 → is_macro_block_at m ≡ false)
    × (last_macro_block 200 ≤ 200)
    × (is_macro_block_at (last_macro_block 200) ≡ true)
    × ((m : ℕ) → last_macro_block 200 < m → m ≤ 200 → is_macro_block_at m ≡ false)
    × (1 ≤ 200 → macro_block_before 200 ≡ some (last_macro_block 199))
macro_neighbours_example = macro_neighbours 200 (omega arith)

election_neighbours_example :
    (200 < election_block_after 200)
    × (is_election_block_at (election_block_after 200) ≡ true)
    × ((m : ℕ) → 200 < m → m < election_block_after 200 → is_election_block_at m ≡ false)
    × (last_election_block 200 ≤ 200)
    × (is_election_block_at (last_election_block 200) ≡ true)
    × ((m : ℕ) → last_election_block 200 < m → m ≤ 200 → is_election_block_at m ≡ false)
    × (1 ≤ 200 → election_block_before 200 ≡ some (last_election_block 199))
election_neighbours_example = election_neighbours 200 (omega arith)

-- ===== src/Primitives/Policy/Schedule.antt =====
-- The block schedule: the functions of the policy agree with one another and with the division of
-- the chain into batches of 32 blocks and epochs of 4 batches.
use nimiq_core_rs_albatross.Base.{
  ℕ, suc, ◌+◌, ◌-◌, ◌*◌, ◌%◌, ◌≤◌, ◌<◌, ◌≡◌, ◌↔◌, true, false, not, some, arith,
}
use nimiq_core_rs_albatross.Primitives.Word.{u32_mod}
use nimiq_core_rs_albatross.Primitives.Policy.{
  batch_length, batches_per_epoch, epoch_length, epoch_at, epoch_index_at, batch_at, batch_index_at,
  election_block_after, election_block_before, last_election_block, is_election_block_at,
  macro_block_after, macro_block_before, last_macro_block, is_macro_block_at, is_micro_block_at,
  first_block_of, first_block_of_batch, election_block_of, macro_block_of, first_batch_of_epoch,
}

-- Block numbers at which no function of the policy wraps.
abbrev pub InRange : ℕ → Type 0
InRange n = n + epoch_length < u32_mod

pub is_macro_block_at_iff :
    (n : ℕ) → InRange n → (is_macro_block_at n ≡ true) ↔ (n % batch_length ≡ 0)
unfolding is_macro_block_at
is_macro_block_at_iff n r = ground arith

pub is_election_block_at_iff :
    (n : ℕ) → InRange n → (is_election_block_at n ≡ true) ↔ (n % epoch_length ≡ 0)
unfolding is_election_block_at
is_election_block_at_iff n r = ground arith

-- From block 1 on, and with a whole epoch of room in 32 bits, a block number is the first block of
-- its epoch plus its index in the epoch, and the first block of its batch plus its index in the
-- batch; the indices are less than the lengths.
pub epoch_position :
    (n : ℕ)
    → 1 ≤ n
    → InRange n
    → (f g : ℕ) × (first_block_of (epoch_at n) ≡ some f)
      × (f + epoch_index_at n ≡ n)
      × (epoch_index_at n < epoch_length)
      × (first_block_of_batch (batch_at n) ≡ some g)
      × (g + batch_index_at n ≡ n)
      × (batch_index_at n < batch_length)
unfolding first_block_of epoch_at epoch_index_at first_block_of_batch batch_at batch_index_at
epoch_position n h r = (
  n - epoch_index_at n,
  n - batch_index_at n,
  ground arith,
  omega arith,
  omega arith,
  ground arith,
  omega arith,
  omega arith,
)

-- For a block number with a whole epoch of room in 32 bits: the next macro block lies above it, is
-- one, and none lies between; the last macro block is at most the number, is one, and none lies
-- between; and from block 1 on the macro block before a number is the last one of its predecessor.
pub macro_neighbours :
    (n : ℕ)
    → InRange n
    → (n < macro_block_after n)
      × (is_macro_block_at (macro_block_after n) ≡ true)
      × ((m : ℕ) → n < m → m < macro_block_after n → is_macro_block_at m ≡ false)
      × (last_macro_block n ≤ n)
      × (is_macro_block_at (last_macro_block n) ≡ true)
      × ((m : ℕ) → last_macro_block n < m → m ≤ n → is_macro_block_at m ≡ false)
      × (1 ≤ n → macro_block_before n ≡ some (last_macro_block (n - 1)))
unfolding macro_block_after is_macro_block_at last_macro_block macro_block_before
macro_neighbours n r = (
  omega arith,
  ground arith,
  λ m l u. ground arith,
  omega arith,
  ground arith,
  λ m l u. ground arith,
  λ h. ground arith,
)

-- For a block number with a whole epoch of room in 32 bits: the next election block lies above it,
-- is one, and none lies between; the last election block is at most the number, is one, and none
-- lies between; and from block 1 on the election block before a number is the last one of its
-- predecessor.
pub election_neighbours :
    (n : ℕ)
    → InRange n
    → (n < election_block_after n)
      × (is_election_block_at (election_block_after n) ≡ true)
      × ((m : ℕ) → n < m → m < election_block_after n → is_election_block_at m ≡ false)
      × (last_election_block n ≤ n)
      × (is_election_block_at (last_election_block n) ≡ true)
      × ((m : ℕ) → last_election_block n < m → m ≤ n → is_election_block_at m ≡ false)
      × (1 ≤ n → election_block_before n ≡ some (last_election_block (n - 1)))
unfolding election_block_after is_election_block_at last_election_block election_block_before
election_neighbours n r = (
  omega arith,
  ground arith,
  λ m l u. ground arith,
  omega arith,
  ground arith,
  λ m l u. ground arith,
  λ h. ground arith,
)

-- With a whole epoch of room in 32 bits, a block is a micro block exactly if it is no macro block,
-- an election block is a macro block, and from block 1 on a block is in the first batch of its
-- epoch exactly if its batch has the number of that batch.
pub block_kinds :
    (n : ℕ)
    → InRange n
    → (is_micro_block_at n ≡ not (is_macro_block_at n))
      × (is_election_block_at n ≡ true → is_macro_block_at n ≡ true)
      × (1 ≤ n
          → (first_batch_of_epoch n ≡ true)
            ↔ (batch_at n ≡ batches_per_epoch * (epoch_at n - 1) + 1))
unfolding is_micro_block_at is_macro_block_at is_election_block_at first_batch_of_epoch batch_at
    epoch_at
block_kinds n r = (ground arith, ground arith, λ h. (λ e. ground arith, λ e. ground arith))

-- The election block of an epoch from 1 on, with an epoch of room in 32 bits, is an election block
-- of that epoch, has the last index in it, is the macro block of the fourth of its batches, and is
-- followed by the first block of the next epoch.
pub election_block_of_lem :
    (e : ℕ)
    → 1 ≤ e
    → e * epoch_length + epoch_length < u32_mod
    → (is_election_block_at (election_block_of e) ≡ true)
      × (epoch_at (election_block_of e) ≡ e)
      × (epoch_index_at (election_block_of e) ≡ epoch_length - 1)
      × (election_block_of e ≡ macro_block_of (batches_per_epoch * e))
      × (first_block_of (suc e) ≡ some (election_block_of e + 1))
unfolding is_election_block_at election_block_of epoch_at epoch_index_at macro_block_of
    first_block_of
election_block_of_lem e h r = (ground arith, omega arith, omega arith, omega arith, ground arith)

-- ===== src/Primitives/Policy.antt =====
-- primitives/src/policy.rs: which blocks are macro and election blocks. Block numbers are u32, and
-- the arithmetic wraps; `none` stands for a panic.
pub mod Schedule
use nimiq_core_rs_albatross.Base.{
  ℕ, ◌+◌, ◌-◌, ◌*◌, ◌/◌, ◌%◌, Bool, not, Option, none, some, ltb, leb, ◌==◌, if◌then◌else◌,
}
use nimiq_core_rs_albatross.Primitives.Word.{add_u32, sub_u32, mul_u32}

abbrev pub slots : ℕ
slots = 512

abbrev pub two_third_slots : ℕ
two_third_slots = (2 * slots + 3 - 1) / 3

abbrev pub batch_length : ℕ
batch_length = 32

abbrev pub batches_per_epoch : ℕ
batches_per_epoch = 4

abbrev pub epoch_length : ℕ
epoch_length = batch_length * batches_per_epoch

unfoldable pub epoch_at : ℕ → ℕ
epoch_at n = sub_u32 (add_u32 n epoch_length) 1 / epoch_length

unfoldable pub epoch_index_at : ℕ → ℕ
epoch_index_at n = sub_u32 (add_u32 n epoch_length) 1 % epoch_length

unfoldable pub batch_at : ℕ → ℕ
batch_at n = sub_u32 (add_u32 n batch_length) 1 / batch_length

unfoldable pub batch_index_at : ℕ → ℕ
batch_index_at n = sub_u32 (add_u32 n batch_length) 1 % batch_length

unfoldable pub election_block_after : ℕ → ℕ
election_block_after n = mul_u32 (add_u32 (n / epoch_length) 1) epoch_length

unfoldable pub election_block_before : ℕ → Option ℕ
election_block_before n =
    if n == 0 then none else some (mul_u32 (sub_u32 n 1 / epoch_length) epoch_length)

unfoldable pub last_election_block : ℕ → ℕ
last_election_block n = mul_u32 (n / epoch_length) epoch_length

unfoldable pub is_election_block_at : ℕ → Bool
unfolding epoch_index_at
is_election_block_at n = epoch_index_at n == (epoch_length - 1)

unfoldable pub macro_block_after : ℕ → ℕ
macro_block_after n = mul_u32 (add_u32 (n / batch_length) 1) batch_length

unfoldable pub macro_block_before : ℕ → Option ℕ
macro_block_before n =
    if n == 0 then none else some (mul_u32 (sub_u32 n 1 / batch_length) batch_length)

unfoldable pub last_macro_block : ℕ → ℕ
last_macro_block n = mul_u32 (n / batch_length) batch_length

unfoldable pub is_macro_block_at : ℕ → Bool
unfolding batch_index_at
is_macro_block_at n = batch_index_at n == (batch_length - 1)

unfoldable pub is_micro_block_at : ℕ → Bool
unfolding batch_index_at
is_micro_block_at n = not (batch_index_at n == (batch_length - 1))

unfoldable pub first_block_of : ℕ → Option ℕ
first_block_of epoch =
    if epoch == 0 then none else some (add_u32 (mul_u32 (sub_u32 epoch 1) epoch_length) 1)

unfoldable pub first_block_of_batch : ℕ → Option ℕ
first_block_of_batch batch =
    if batch == 0 then none else some (add_u32 (mul_u32 (sub_u32 batch 1) batch_length) 1)

unfoldable pub election_block_of : ℕ → ℕ
election_block_of epoch = mul_u32 epoch epoch_length

unfoldable pub macro_block_of : ℕ → ℕ
macro_block_of batch = mul_u32 batch batch_length

unfoldable pub first_block_of_registry : ℕ → Option ℕ
unfolding first_block_of
first_block_of_registry epoch = if leb epoch 1 then some 0 else first_block_of (sub_u32 epoch 1)

unfoldable pub first_batch_of_epoch : ℕ → Bool
unfolding epoch_index_at
first_batch_of_epoch n = ltb (epoch_index_at n) batch_length

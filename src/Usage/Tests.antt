-- ===== src/Usage/Tests.antt =====
-- src/thread_usage.h at concrete cells, and its theorems at concrete inputs.
use libult.Base.{◌≡◌, refl, true, false}
use libult.Usage.{
  add, and, sub, processor, processor-IsAtomic, thread_op_fetch, thread_fetch_op,
  thread_compare_exchange_strong, thread_swap,
}
use libult.Usage.Laws.{thread_op_transparent}

-- -1 + 1 is 0, and 0 - 1 is the pattern of -1.
add_wraps : thread_op_fetch processor false add 32 0xffff_ffff 1 ≡ (0, 0)
unfolding thread_op_fetch
add_wraps = refl

sub_wraps : thread_fetch_op processor true sub 32 0 1 ≡ (0xffff_ffff, 0)
unfolding thread_fetch_op
sub_wraps = refl

thread_op_transparent_example :
    (thread_op_fetch processor true and 32 12 10 ≡ thread_op_fetch processor false and 32 12 10)
    × (thread_fetch_op processor true and 32 12 10 ≡ thread_fetch_op processor false and 32 12 10)
    × (thread_compare_exchange_strong processor true 12 12 10
        ≡ thread_compare_exchange_strong processor false 12 12 10)
    × (thread_swap processor true 12 10 ≡ thread_swap processor false 12 10)
    × ((thread_op_fetch processor true and 32 12 10).0
        ≡ (thread_fetch_op processor true and 32 12 10).0)
    × ((thread_op_fetch processor true and 32 12 10).1
        ≡ (thread_op_fetch processor true and 32 12 10).0)
    × ((thread_fetch_op processor true and 32 12 10).1 ≡ 12)
thread_op_transparent_example = thread_op_transparent processor-IsAtomic true false and 32 12 10 12

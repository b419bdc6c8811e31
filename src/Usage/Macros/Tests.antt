-- ===== src/Usage/Macros/Tests.antt =====
-- src/thread_usage.h: macros at concrete cells, on a platform of 64 bits.
use libult.Base.{◌≡◌, refl, ◌<◌, ◌^◌, true, false, arith}
use libult.Usage.{processor, processor-IsAtomic, thread_fetch_op, thread_compare_exchange_strong}
use libult.Usage.Macros.{
  Platform, bits, is_defined, macro, fetch_sub_size_t, compare_exchange_strong_ptr, width, call,
}
use libult.Usage.Macros.Fits.{IsResult, macro-call-fits}

abbrev platform : Platform
platform = record { size_bits = 64; ptr_bits = 64 }

-- 0 - 1 in a `size_t`
wraps : call processor platform true (macro fetch_sub_size_t) 1 0 ≡ (0xffff_ffff_ffff_ffff, 0)
unfolding call thread_fetch_op
wraps = refl

-- The cell is not what is expected.
refused :
    call processor platform false (macro compare_exchange_strong_ptr) (3, 9) 7 ≡ (7, (false, 7))
unfolding call thread_compare_exchange_strong
refused = refl

macro-call-fits_example :
    (is_defined (macro fetch_sub_size_t) ≡ true)
    × ((call processor platform true (macro fetch_sub_size_t) 1 0).0
        < 2 ^ bits platform (width (macro fetch_sub_size_t)))
    × IsResult
        (macro fetch_sub_size_t)
        1
        0
        (call processor platform true (macro fetch_sub_size_t) 1 0).0
        (call processor platform true (macro fetch_sub_size_t) 1 0).1
macro-call-fits_example =
    macro-call-fits processor-IsAtomic platform true fetch_sub_size_t 1 0 (omega arith)
      (omega arith)

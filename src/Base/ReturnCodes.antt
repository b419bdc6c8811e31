-- ===== src/Base/ReturnCodes.antt =====
-- The return codes. The repository takes them from a header that it does not hold, so they are a
-- parameter; the code relies only on their being different.
use Prim.Native.Nat.{ℕ}
use mathlib.Core.Logic.{◌≢◌}
use native.Mathlib.Omega.{arith}

-- As patterns of a C `int`.
pub record Codes : Type 0 where
  pub success : ℕ
  pub error : ℕ
  pub err_in_errno : ℕ
  pub err_bad_param : ℕ
  pub err_out_of_resource : ℕ

-- No failure is reported as success.
pub record IsCodes (codes : Codes) : Type 0 where
  pub error-ne : codes.error ≢ codes.success
  pub err_in_errno-ne : codes.err_in_errno ≢ codes.success
  pub err_bad_param-ne : codes.err_bad_param ≢ codes.success
  pub err_out_of_resource-ne : codes.err_out_of_resource ≢ codes.success

-- Codes with the property, for examples: 0 and the patterns of -1, -5, -6 and -2.
abbrev pub sample_codes : Codes
sample_codes = record {
  success = 0;
  error = 0xffff_ffff;
  err_in_errno = 0xffff_fffa;
  err_bad_param = 0xffff_fffb;
  err_out_of_resource = 0xffff_fffe;
}

pub sample_codes-IsCodes : IsCodes sample_codes
sample_codes-IsCodes = omega arith

-- ===== src/Tsd/Keys/Tests.antt =====
-- src/impl/qthreads/threads_qthreads_module.c: keys in a library with little room.
use libult.Base.{
  ℕ, suc, ◌-◌, ◌≡◌, refl, true, ◌==◌, ltb, if◌then◌else◌, arith, sample_codes, sample_codes-IsCodes,
}
use libult.Tsd.Slots.{qthreads}
use libult.Tsd.Keys.{KeyLibrary, IsKeyLibrary, key_create, key_delete, key_calls_reported}

-- A library with room for three keys.
abbrev key_library : KeyLibrary ℕ
key_library = record {
  lib_success = 0;
  create_key = λ w. if ltb w 3 then (0, suc w) else (12, w);
  delete_key = λ w. if ltb 0 w then (0, w - 1) else (22, w);
  ensure_init = λ w. w;
}

key_library-IsKeyLibrary : IsKeyLibrary key_library qthreads (λ w. w)
key_library-IsKeyLibrary = record {
  success-code = refl;
  created = λ w e. ground arith;
  not_created = λ w e. ground arith;
  deleted = λ w e. ground arith;
  not_deleted = λ w e. ground arith;
  keys-init = λ w. refl;
}

-- No key is made, and success is reported.
key_create_full : key_create sample_codes key_library qthreads 3 ≡ (0, 3)
unfolding key_create
key_create_full = refl

key_calls_reported_example :
    (((key_create sample_codes key_library qthreads 3).0 == 0) ≡ true)
    × ((key_create sample_codes key_library qthreads 3).1 ≡ 3)
    × (((key_delete sample_codes key_library qthreads 3).0 == 0) ≡ true)
    × (3 ≡ suc (key_delete sample_codes key_library qthreads 3).1)
key_calls_reported_example =
    key_calls_reported sample_codes-IsCodes qthreads 3 key_library-IsKeyLibrary

-- ===== src/Tests/MemcpyRuns.antt =====
-- A copy of 100 bytes by __libsysve_vec_memcpy.
use libsysve.Prelude.{◌+◌, ◌%◌, ◌≡◌, some, arith, inl, copy}
use libsysve.Memcpy.{vec_memcpy}
use libsysve.Memcpy.Copies.{vec_memcpy-copy}

vec_memcpy-copy_example :
    vec_memcpy 256 (λ a. a % 251) 2051 1003 100
    ≡ some (2051, copy (λ a. a % 251) 2051 (λ k. (1003 + k) % 251) 100)
vec_memcpy-copy_example =
    vec_memcpy-copy (λ a. a % 251) 2051 1003 100 (inl (omega arith)) 256 (omega arith)

-- ===== src/Tests/AioRuns.antt =====
-- A context of src/libveaio.c that carries one read.
use libsysve.Prelude.{ℕ, ◌+◌, ◌≡◌, refl, true, false, none, some}
use libsysve.Prelude.Int.{pos}
use libsysve.Aio.{
  AioEnv, AioRequest, AioResult, AioState, success, start_at, began, complete, fini_at, ve_aio_fini,
  ve_aio_read, ve_aio_write, Done,
}
use libsysve.Aio.Results.{Delivers, started-Delivers}
use libsysve.Aio.Protocol.{
  read, landed, Reachable, made, next, expected, started, Reachable-expected, ve_aio_fini-Reachable,
}

abbrev env : AioEnv ℕ
env = record {
  aio2_init = λ k. (success, k);
  aio2_read = λ r k. (success, k + 1);
  aio2_write = λ r k. (success, k + 1);
  aio2_wait = λ k. (success, none, k);
  calloc = λ k. (true, k);
  mutex_init = λ k. (true, k);
}

abbrev new_result : AioResult
new_result = record { active = false; retval = pos 0; errnoval = 0 }

abbrev new_ctx : AioState ℕ
new_ctx = record { kernel = 0; errno = 0; ve_aio_setup = 1; ctx = some new_result }

abbrev request : AioRequest
request = record { fd = 3; count = pos 4096; buf = 8192; offset = 0 }

abbrev busy : AioState ℕ
busy = (ve_aio_read env request new_ctx).1

abbrev finished : AioState ℕ
finished = record busy { ctx = complete (record { retval = pos 4096; errnoval = 0 }) busy.ctx }

after_read : Reachable env busy (0 + started (ve_aio_read env request new_ctx).0)
after_read = next (made new_ctx new_result refl refl) (read request new_ctx 0)

Reachable-expected_example : 0 + started (ve_aio_read env request new_ctx).0 ≡ expected busy.ctx
Reachable-expected_example = Reachable-expected env after_read

after_landing : Reachable env finished 0
unfolding ve_aio_read start_at began
after_landing = next after_read (landed (record { retval = pos 4096; errnoval = 0 }) busy 0)

finished-fini : (ve_aio_fini env finished).0 ≡ pos 0
unfolding ve_aio_fini fini_at ve_aio_read start_at began complete
finished-fini = refl

ve_aio_fini-Reachable_example : ◌≡◌ {A = ℕ} 0 0
ve_aio_fini-Reachable_example = ve_aio_fini-Reachable env after_landing finished-fini

abbrev short_read : Done
short_read = record { retval = pos 100; errnoval = 0 }

-- A kernel whose wait sees the request land.
abbrev landing : AioEnv ℕ
landing = record env { aio2_wait = λ k. (success, some short_read, k + 1) }

started-Delivers_example :
    Delivers landing short_read 2 (ve_aio_read landing request new_ctx)
    × Delivers landing short_read 2 (ve_aio_write landing request new_ctx)
started-Delivers_example =
    started-Delivers landing request short_read 1 2 new_result new_ctx refl refl refl refl refl

-- ===== src/Aio.antt =====
-- Asynchronous I/O, src/libveaio.c: contexts that carry one request at a time, which the VH completes by
-- writing the context.
pub mod Protocol
pub mod Results
use libsysve.Prelude.{
  ℕ, zero, suc, ◌+◌, Bool, true, false, not, ◌==◌, if◌then◌else◌, Option, none, some,
}
use libsysve.Prelude.Int.{ℤ, pos, negsuc, ◌==ℤ◌, minus_one}

-- Linux errno values.
abbrev pub enomem : ℕ
enomem = 12

abbrev pub ebusy : ℕ
ebusy = 16

abbrev pub einval : ℕ
einval = 22

-- `ctx->result`: the `active` bit is the sign of `binary`.
pub record AioResult : Type 0 where
  pub active : Bool
  pub retval : ℤ
  pub errnoval : ℕ

-- What `*retval` and `*errnoval` are set to.
pub record Done : Type 0 where
  pub retval : ℤ
  pub errnoval : ℕ

-- The caller's variables: the context it holds (`none` is NULL), errno, and `ve_aio_setup`.
pub record AioState (K : Type 0) : Type 0 where
  pub kernel : K
  pub errno : ℕ
  pub ve_aio_setup : ℕ
  pub ctx : Option AioResult

-- The arguments `fd`, `count`, `buf` and `offset`.
pub record AioRequest : Type 0 where
  pub fd : ℕ
  pub count : ℤ
  pub buf : ℕ
  pub offset : ℕ

-- A system call returns 0, or a value with errno.
pub data Reply : Type 0 where
  success : Reply
  failure : ℤ → ℕ → Reply

-- VE_SYSVE_AIO2_INIT, _READ and _WRITE, _WAIT with the request that the VH completes meanwhile, `calloc`
-- and `pthread_mutex_init`.
pub record AioEnv (K : Type 0) : Type 0 where
  pub aio2_init : K → Reply × K
  pub aio2_read : AioRequest → K → Reply × K
  pub aio2_write : AioRequest → K → Reply × K
  pub aio2_wait : K → Reply × Option Done × K
  pub calloc : K → Bool × K
  pub mutex_init : K → Bool × K

abbrev pub done_of : AioResult → Done
done_of r = record { retval = r.retval; errnoval = r.errnoval }

-- The VH writes the result of a request.
unfoldable pub complete : Done → Option AioResult → Option AioResult
complete d none = none
complete d (some r) = some (record { active = false; retval = d.retval; errnoval = d.errnoval })

module _ {K : Type 0} (e : AioEnv K) where
  unfoldable pub mutex_made : Bool × K → AioState K → Bool × AioState K
  mutex_made (false, k) s = (false, record s { kernel = k; errno = enomem })
  mutex_made (true, k) s = (
    true,
    record s { kernel = k; ctx = some (record { active = false; retval = pos 0; errnoval = 0 }) },
  )

  unfoldable pub allocated : Bool × K → AioState K → Bool × AioState K
  allocated (false, k) s = (false, record s { kernel = k; errno = enomem })
  allocated (true, k) s = mutex_made (e.mutex_init k) s

  unfoldable pub set_up : Reply × K → AioState K → Bool × AioState K
  set_up (failure ret err, k) s = (false, record s { kernel = k; errno = err })
  set_up (success, k) s = allocated (e.calloc k) (record s { ve_aio_setup = s.ve_aio_setup + 1 })

  -- Whether a context was made; it is the state's `ctx` then.
  unfoldable pub ve_aio_init : AioState K → Bool × AioState K
  ve_aio_init s =
      if s.ve_aio_setup == 0
      then set_up (e.aio2_init s.kernel) s
      else allocated (e.calloc s.kernel) s

  unfoldable pub fini_at : Option AioResult → AioState K → ℤ × AioState K
  fini_at none s = (minus_one, record s { errno = einval })
  fini_at (some r) s =
      if r.active then (minus_one, record s { errno = ebusy }) else (pos 0, record s { ctx = none })

  unfoldable pub ve_aio_fini : AioState K → ℤ × AioState K
  ve_aio_fini s = fini_at s.ctx s

  -- What follows the system call that starts a request of the active context `r`.
  unfoldable pub began : AioResult → Reply × K → AioState K → ℤ × AioState K
  began r (success, k) s = (pos 0, record s { kernel = k; ctx = some r })
  began r (failure ret err, k) s =
      (minus_one, record s { kernel = k; errno = err; ctx = some (record r { active = false }) })

  unfoldable pub start_at :
      (AioRequest → K → Reply × K) → AioRequest → Option AioResult → AioState K → ℤ × AioState K
  start_at call req none s = (minus_one, record s { errno = einval })
  start_at call req (some r) s =
      if r.active
      then (minus_one, record s { errno = ebusy })
      else began (record r { active = true }) (call req s.kernel) s

  unfoldable pub ve_aio_read : AioRequest → AioState K → ℤ × AioState K
  ve_aio_read req s = start_at e.aio2_read req s.ctx s

  unfoldable pub ve_aio_write : AioRequest → AioState K → ℤ × AioState K
  ve_aio_write req s = start_at e.aio2_write req s.ctx s

  unfoldable pub query_at : Option AioResult → AioState K → ℤ × Option Done × AioState K
  query_at none s = (minus_one, none, record s { errno = einval })
  query_at (some r) s = if r.active then (pos 1, none, s) else (pos 0, some (done_of r), s)

  unfoldable pub ve_aio_query : AioState K → ℤ × Option Done × AioState K
  ve_aio_query s = query_at s.ctx s

  -- `hndl_ret`, unless the context is still active.
  unfoldable pub waited_at : Option AioResult → AioState K → ℤ × Option Done × AioState K
  waited_at none s = (minus_one, none, s)
  waited_at (some r) s =
      if r.active
      then (minus_one, none, record s { errno = ebusy })
      else (pos 0, some (done_of r), s)

  unfoldable pub after_wait : Reply → AioState K → ℤ × Option Done × AioState K
  after_wait (failure ret err) s = (ret, none, record s { errno = err })
  after_wait success s = waited_at s.ctx s

  -- The context once the system call has returned.
  unfoldable pub meanwhile : Option Done → Option AioResult → Option AioResult
  meanwhile none c = c
  meanwhile (some d) c = complete d c

  unfoldable pub wait_at : Option AioResult → AioState K → ℤ × Option Done × AioState K
  wait_at none s = (minus_one, none, record s { errno = einval })
  wait_at (some r) s =
      let (reply, landed, k) = e.aio2_wait s.kernel in
      if r.active
      then after_wait reply (record s { kernel = k; ctx = meanwhile landed s.ctx })
      else (pos 0, some (done_of r), s)

  unfoldable pub ve_aio_wait : AioState K → ℤ × Option Done × AioState K
  ve_aio_wait s = wait_at s.ctx s

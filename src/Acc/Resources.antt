-- ===== src/Acc/Resources.antt =====
-- The buffers of a thread in src/accelerated_io.c: how a request claims them, the list of all
-- threads' buffers, and what a fork and a thread's end do with them.
pub mod Claiming
pub mod Links
pub mod Fork
pub mod Blocks
pub mod Growth
use Prim.Native.Nat.{bit_or}
use libsysve.Prelude.{
  ℕ, zero, suc, ◌+◌, ◌*◌, Bool, true, false, not, ◌||◌, Option, none, some, ◌==◌, if◌then◌else◌,
  update,
}
use libsysve.Prelude.Int.{ℤ, pos, ◌==ℤ◌}
use libsysve.Acc.Vh.{AccIoInfo, paras_size}
use libsysve.Acc.Process.{
  AccIoResources, Constructed, accelerated_io, pdma_io, Hook, none_set, Process, Setting, Init2,
  Call, World, run,
}

-- The results of `ve_accelerated_io_pre`: SUCCESS with the buffers, FAIL and NOBUF.
pub data Claim : Type 0 where
  success : AccIoInfo → Claim
  fail : Claim
  nobuf : Claim

-- A setting asks for PDMA unless it is absent or is a plain zero.
unfoldable pub asks_pdma : Option Setting → Bool
asks_pdma none = false
asks_pdma (some v) = not (v.number ==ℤ pos 0) || not (v.rest_length == 0)

-- The two loops that fill `io_info`.
unfoldable pub io_info_of : ℕ → AccIoResources → AccIoInfo
io_info_of flag r = record {
  vh_buff_and_flag = λ i. bit_or r.vh_buff flag + paras_size * i;
  ve_buff = λ i. r.ve_io_buff + paras_size * i;
  vh_vehva = λ i. r.vehva + paras_size * i;
  ve_vehva = λ i. r.local_vehva + paras_size * i;
}

-- Insert after `list_head`.
unfoldable pub link_first : ℕ → ℕ → (ℕ → AccIoResources) → ℕ → AccIoResources
link_first head a h =
    let h1 = update h a (record (h a) { next = (h head).next; prev = head }) in
    let h2 =
      if (h1 head).next == 0
      then h1
      else (let b = (h1 head).next in update h1 b (record (h1 b) { prev = a })) in
    update h2 head (record (h2 head) { next = a })

-- Take out of the list.
unfoldable pub unlink : ℕ → (ℕ → AccIoResources) → ℕ → AccIoResources
unlink a h =
    let h1 =
      if (h a).prev == 0
      then h
      else (let b = (h a).prev in update h b (record (h b) { next = (h a).next })) in
    if (h1 a).next == 0
    then h1
    else (let b = (h1 a).next in update h1 b (record (h1 b) { prev = (h1 a).prev }))

unfoldable pub post : {K : Type 0} → Process K → Process K
post p = record p { ve_buff_using_flag = false }

module _ {K : Type 0} (w : World K) where
  -- `pthread_sigmask(SIG_BLOCK, ..)` with all signals, and `pthread_mutex_lock`
  unfoldable pub atfork_prepare : Process K → Process K
  atfork_prepare p = record p {
    acc_io_sigset_old = p.sigmask;
    sigmask = bit_or p.sigmask w.acc_io_sigset;
    list_locked = true;
  }

  unfoldable pub atfork_parent : Process K → Process K
  atfork_parent p = record p { list_locked = false; sigmask = p.acc_io_sigset_old }

  unfoldable pub chk_env_init_dma : Process K → Constructed × Process K
  chk_env_init_dma p =
      if asks_pdma (w.setting_pdma p.sys) || asks_pdma (w.setting_atomic p.sys)
      then (pdma_io, p)
      else (let (ret, p') = run w.ve_dma_init p in
          (if ret ==ℤ pos 0 then accelerated_io else pdma_io, p'))

  unfoldable pub release_resource : ℕ → Bool → Process K → Process K
  release_resource res is_fork p =
      let r = p.heap res in
      let p1 = (run (w.free_vh_buf r.vh_buff) p).1 in
      let p2 = if is_fork then p1 else (run (w.unregister_dmaatb r.local_vehva r.vehva) p1).1 in
      record p2 { sys = w.free res p2.sys }

  -- `error_unlock_ve`
  unfoldable pub error_unlock_ve : ℕ → Claim → Process K → Claim × Process K
  error_unlock_ve errno_bak retval p =
      (retval, record p { ve_buff_using_flag = false; errno = errno_bak })

  -- The end of `ve_accelerated_io_pre`, with the thread's resources at `a`.
  unfoldable pub claimed : ℕ → Process K → Claim × Process K
  claimed a p = (success (io_info_of w.accelerated_io_flag (p.heap a)), p)

  -- `pthread_setspecific`, and the new resources join the list.
  unfoldable pub publish : ℕ → ℕ → Bool × Process K → Claim × Process K
  publish errno_bak a (false, p) = error_unlock_ve errno_bak fail (release_resource a false p)
  publish errno_bak a (true, p) =
      let q = atfork_prepare (record p { key = a }) in
      claimed a (atfork_parent (record q { heap = link_first w.list_head a q.heap }))

  -- What VE_SYSVE_ACCELERATED_IO_INIT2 returned.
  unfoldable pub initialised : ℕ → ℕ → Option Init2 × Process K → Claim × Process K
  initialised errno_bak a (none, p) =
      error_unlock_ve errno_bak nobuf (record p { sys = w.free a p.sys })
  initialised errno_bak a (some r, p) =
      let q = record p {
        heap = update p.heap a (record {
          local_vehva = r.local_vehva;
          vehva = r.vehva;
          vh_buff = r.vhva;
          ve_io_buff = w.ve_io_buff_of a;
          next = 0;
          prev = 0;
        });
      } in
      publish errno_bak a (run (w.setspecific a) q)

  unfoldable pub allocated : ℕ → ℕ × Process K → Claim × Process K
  allocated errno_bak (zero, p) = error_unlock_ve errno_bak fail p
  allocated errno_bak (suc b, p) =
      initialised errno_bak (suc b) (run (w.init2 (w.ve_io_buff_of (suc b))) p)

  -- The thread's first request.
  unfoldable pub first_request : ℕ → Constructed × Process K → Claim × Process K
  first_request errno_bak (pdma_io, p) = error_unlock_ve errno_bak fail p
  first_request errno_bak (accelerated_io, p) = allocated errno_bak (run w.malloc p)

  -- With the flag taken by this request.
  unfoldable pub own : Process K → Claim × Process K
  own p =
      let first = first_request p.errno (chk_env_init_dma p) in
      if p.key == 0 then first else claimed p.key p

  -- What `__libsysve_a_swap(&ve_buff_using_flag, VE_BUFF_USING)` returned.
  unfoldable pub swapped : Bool → Process K → Claim × Process K
  swapped true p = (nobuf, p)
  swapped false p = own p

  unfoldable pub unless_pdma : Constructed → Process K → Claim × Process K
  unless_pdma pdma_io p = (fail, p)
  unless_pdma accelerated_io p =
      swapped p.ve_buff_using_flag (record p { ve_buff_using_flag = true })

  unfoldable pub pre : Process K → Claim × Process K
  pre p = unless_pdma p.constructor_result p

  -- The loop over the list, with `fuel` rounds at most.
  unfoldable pub release_all : ℕ → ℕ → Process K → Process K
  release_all zero temp p = p
  release_all (suc fuel) temp p =
      let rest = release_all fuel (p.heap temp).next (release_resource temp true p) in
      if temp == 0 then p else rest

  unfoldable pub atfork_child : ℕ → Process K → Process K
  atfork_child fuel p =
      let p1 = record p { list_locked = false; key = 0 } in
      let p2 = release_all fuel (p1.heap w.list_head).next p1 in
      record p2 {
        heap = update p2.heap w.list_head (record (p2.heap w.list_head) { next = 0 });
        ve_buff_using_flag = false;
        sigmask = p2.acc_io_sigset_old;
      }

  unfoldable pub dstfunc : ℕ → Process K → Process K
  dstfunc param p =
      let q = atfork_prepare p in
      release_resource param false (atfork_parent (record q { heap = unlink param q.heap }))

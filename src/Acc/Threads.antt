-- ===== src/Acc/Threads.antt =====
-- All threads of a process on the list of buffers of src/accelerated_io.c: what each thread has of its
-- own, what they share, and the steps of any thread in any order. A request up to its claim is one
-- step, and so are its end, the end of a thread and a fork, after which the child is followed.
pub mod Members
pub mod Keys
pub mod Owners
use libsysve.Prelude.{ℕ, ◌<◌, ◌≡◌, ◌≢◌, List, Bool, update}
use libsysve.Acc.Process.{AccIoResources, Constructed, Hooks, Process, World}
use libsysve.Acc.Resources.{pre, post, dstfunc, atfork_child, atfork_prepare}
use libsysve.Acc.Resources.Links.{Linked}
use libsysve.Acc.Resources.Fork.{count}

-- The `__thread` variables, errno, the thread's value of `acc_io_resources_key` and its signal mask.
pub record Thread : Type 0 where
  pub errno : ℕ
  pub ve_buff_using_flag : Bool
  pub key : ℕ
  pub sigmask : ℕ
  pub acc_io_sigset_old : ℕ

-- What the threads share.
pub record System (K : Type 0) : Type 0 where
  pub sys : K
  pub constructor_result : Constructed
  pub heap : ℕ → AccIoResources
  pub hooks : Hooks
  pub list_locked : Bool
  pub threads : ℕ → Thread

-- The process as thread `t` sees it.
abbrev pub view : {K : Type 0} → ℕ → System K → Process K
view t s = record {
  sys = s.sys;
  errno = (s.threads t).errno;
  constructor_result = s.constructor_result;
  ve_buff_using_flag = (s.threads t).ve_buff_using_flag;
  key = (s.threads t).key;
  heap = s.heap;
  hooks = s.hooks;
  sigmask = (s.threads t).sigmask;
  acc_io_sigset_old = (s.threads t).acc_io_sigset_old;
  list_locked = s.list_locked;
}

-- What thread `t` leaves.
abbrev pub leave : {K : Type 0} → ℕ → System K → Process K → System K
leave t s p = record {
  sys = p.sys;
  constructor_result = p.constructor_result;
  heap = p.heap;
  hooks = p.hooks;
  list_locked = p.list_locked;
  threads = update s.threads t (record {
    errno = p.errno;
    ve_buff_using_flag = p.ve_buff_using_flag;
    key = p.key;
    sigmask = p.sigmask;
    acc_io_sigset_old = p.acc_io_sigset_old;
  });
}

module _ {K : Type 0} (w : World K) where
  -- At the end of a thread the C library clears its key and passes the old value on.
  unfoldable pub end_thread : ℕ → System K → System K
  end_thread t s = leave t s (dstfunc w (s.threads t).key (record (view t s) { key = 0 }))

  -- The child of a fork by thread `t` has that thread alone; `atfork_prepare` ran before the fork.
  unfoldable pub forked_child : (t fuel : ℕ) → System K → System K
  forked_child t fuel s =
      leave t (record s { threads = λ u. record (s.threads u) { key = 0 } })
        (atfork_child w fuel (atfork_prepare w (view t s)))

  pub data Step : System K → System K → Type 0 where
    request : (t : ℕ) (s : System K) → Step s (leave t s (pre w (view t s)).1)
    finished : (t : ℕ) (s : System K) → Step s (leave t s (post (view t s)))
    ended : (t : ℕ) (s : System K) → (s.threads t).key ≢ 0 → Step s (end_thread t s)
    forked :
        (t fuel : ℕ) (xs : List ℕ) (s : System K)
        → Linked s.heap w.list_head xs
        → count xs < fuel
        → Step s (forked_child t fuel s)

  -- From a process whose list is empty and whose threads have no buffers.
  pub data Reachable : System K → Type 0 where
    fresh_process :
        (s : System K)
        → (s.heap w.list_head).next ≡ 0
        → ((t : ℕ) → (s.threads t).key ≡ 0)
        → Reachable s
    then : {s s' : System K} → Reachable s → Step s s' → Reachable s'

-- ===== src/Acc/Read/Received.antt =====
-- The second half of the body of the read of src/accelerated_io.c against one step of the plain read, by
-- what the system call returned.
use libsysve.Prelude.{
  ℕ, zero, suc, ◌≤◌, ◌%◌, ◌<◌, ◌≡◌, inl, inr, refl, false, Option, none, ◌==◌, Bytes, copy, update,
  arith, Bool-cases,
}
use libsysve.Prelude.Int.{minus_one}
use libsysve.Acc.Vh.{AccIoInfo, paras_size}
use libsysve.Acc.Slots.{Pending, idle, one, two, Slots, beside, slots_differ, Other}
use libsysve.Acc.Read.Types.{ReadReply, failed, got, Job}
use libsysve.Acc.Read.Plain.{Progress, request}
use libsysve.Acc.Read.{Env, St, arrived, receive, issue, result}
use libsysve.Acc.Read.Step.{Sound, LandsAll, deliver, delivered, Agrees, refusal}
use libsysve.Acc.Read.Drain.{drain-idle_self, drain-beside}
use libsysve.Acc.Read.Issue.{Free}
use libsysve.Acc.Control.{rounds}
use libsysve.Acc.Read.Rounds.{last, size_of, answered, Follows, Ready, post-Follows}

module _ {K D T : Type 0} (e : Env K D) (put : T → Bytes → ℕ → T) (io : AccIoInfo) (job : Job)
    (ok : Sound e put io job) where
  -- A call that put nothing into the slot leaves the other slot's chunk.
  freed-Slots : (i : ℕ) (q : ℕ → Option ℕ) → Other i q → Slots (beside i) (update q (i % 2) none)
  freed-Slots zero q o = (refl, o)
  freed-Slots (suc m) q o = (ground (arith, slots_differ m), ground arith)

  empty-Agrees :
      (i n : ℕ) (bytes : Bytes) (k : K) (s : St K D T) (p : Progress K T)
      → Agrees (delivered e put io job (beside i) s) p
      → Agrees
          (delivered e put io job (beside i) (record s {
            kernel = k;
            vh = update s.vh (i % 2) (copy (s.vh (i % 2)) 0 bytes n);
            read_out_size = update s.read_out_size (i % 2) n;
            posted = update s.posted (i % 2) none;
          }))
          (record p { kernel = k })
  unfolding arrived
  empty-Agrees zero n bytes k s p a = record {
    kernel = refl;
    sink = a.sink;
    total = a.total;
    ofs = a.ofs;
    errno = a.errno;
  }
  empty-Agrees (suc m) n bytes k s p a = record {
    kernel = refl;
    sink = ground (arith, slots_differ m, a.sink);
    total = ground (arith, slots_differ m, a.total);
    ofs = a.ofs;
    errno = a.errno;
  }

  empty-Lands :
      (i n : ℕ) (bytes : Bytes) (k : K) (s : St K D T)
      → LandsAll io (beside i) s
      → LandsAll io (beside i) (record s {
        kernel = k;
        vh = update s.vh (i % 2) (copy (s.vh (i % 2)) 0 bytes n);
        read_out_size = update s.read_out_size (i % 2) n;
        posted = update s.posted (i % 2) none;
      })
  empty-Lands zero n bytes k s l = l
  empty-Lands (suc m) n bytes k s l = record {
    apart = l.apart;
    order = ground (arith, l.order, slots_differ m);
    fits = ground (arith, l.fits, slots_differ m);
  }

  failed-Agrees :
      (m : ℕ) (k : K) (s : St K D T) (p : Progress K T)
      → Agrees (deliver e put io job (m % 2) s) p
      → Agrees
          (deliver e put io job
            (m % 2)
            (record s { kernel = k; errno = 0; posted = update s.posted (suc m % 2) none }))
          (record p { kernel = k; errno = 0 })
  unfolding arrived
  failed-Agrees m k s p a = record {
    kernel = refl;
    sink = a.sink;
    total = a.total;
    ofs = a.ofs;
    errno = refl;
  }

  not_first : (m : ℕ) → (suc m == 0) ≡ false
  not_first m = ground arith

  failed-Follows :
      (i err : ℕ) (k : K) (s : St K D T) (p : Progress K T)
      → Ready e put io job ok i s p
      → Follows e put io job ok i
          (receive e put io job i (i % 2) s (failed err, k))
          (answered e put io job ok i p (failed err, k))
  unfolding receive
  failed-Follows zero err k s p ready = λ next.
      rw (drain-idle_self e put io job s' (freed-Slots zero s.posted free.other))
        (unfold result in inl (ground arith))
    where
      s' : St K D T
      s' = record s {
        kernel = k;
        errno_bak = err;
        exit_result = minus_one;
        errno = 0;
        posted = update s.posted 0 none;
      }

      free : Free e put io job ok zero s p
      free = ready.free
  failed-Follows (suc m) err k s p ready = λ next. rw (not_first m) (
      drain-beside e put io job (suc m) s' (record p { kernel = k; errno = 0 })
        (omega (arith, ready.small, ready.bound)) free.clean free.bak
        (freed-Slots (suc m) s.posted free.other)
        (record { apart = free.lands.apart; order = free.lands.order; fits = free.lands.fits })
        (failed-Agrees m k s p free.agrees))
    where
      free : Free e put io job ok (suc m) s p
      free = ready.free

      s' : St K D T
      s' = record s { kernel = k; errno = 0; posted = update s.posted (suc m % 2) none }

  receive-Follows :
      (i : ℕ) (r : ReadReply × K) (s : St K D T) (p : Progress K T)
      → Ready e put io job ok i s p
      → ((n : ℕ) (bytes : Bytes) → r.0 ≡ got n bytes → n ≤ paras_size)
      → Follows e put io job ok i
          (receive e put io job i (i % 2) s r)
          (answered e put io job ok i p r)
  unfolding receive
  receive-Follows i (failed err, k) s p ready few = failed-Follows i err k s p ready
  receive-Follows i (got n bytes, k) s p ready few = elim (Bool-cases (n == 0)) [
    | inl nothing ↦ rw nothing (λ next. rw nothing (
        drain-beside e put io job i _ (record p { kernel = k })
          (omega (arith, ready.small, ready.bound)) free.clean free.bak
          (freed-Slots i s.posted free.other) (empty-Lands i n bytes k s free.lands)
          (empty-Agrees i n bytes k s p free.agrees)))
    | inr some_bytes ↦ rw some_bytes (
        post-Follows e put io job ok i n bytes k _ s p some_bytes (few n bytes refl) ready
          (refusal s.dma _))
  ]
    where
      free : Free e put io job ok i s p
      free = ready.free

  delivered_fields :
      (q : Pending) (s : St K D T)
      → ((delivered e put io job q s).kernel ≡ s.kernel)
        × ((delivered e put io job q s).ofs ≡ s.ofs)
  delivered_fields idle s = (refl, refl)
  delivered_fields (one m) s = (refl, refl)
  delivered_fields (two m) s = (refl, refl)

  size_of-le : (i : ℕ) → i < rounds job.count → size_of e put io job ok i ≤ paras_size
  unfolding rounds
  size_of-le i lt = ground (arith, ok.small)

  pub issue-Follows :
      (i : ℕ) (s : St K D T) (p : Progress K T)
      → Ready e put io job ok i s p
      → Follows e put io job ok i (issue e put io job i (i % 2) s) (
          answered e put io job ok i p (
            e.read p.kernel (
              request e.read put e.second_flag io.vh_buff_and_flag job (last e put io job ok) i p)))
  unfolding issue
  issue-Follows i s p ready = rw same (
      receive-Follows i _ s p ready
        (λ n bytes q. omega (arith, ok.honest _ _ n bytes q, size_of-le i ready.small)))
    where
      same :
          e.read s.kernel (record {
            number = job.number;
            fd = job.fd;
            buf = s.vh_buff_and_flag (i % 2);
            size = s.transfer_size;
            ofs = s.ofs;
          })
          ≡ e.read p.kernel
              (request e.read put e.second_flag io.vh_buff_and_flag job (last e put io job ok) i p)
      same = ground (
        arith,
        ready.free.agrees.kernel,
        ready.free.agrees.ofs,
        delivered_fields (beside i) s,
        ready.buffer_set,
        ready.size_set,
      )

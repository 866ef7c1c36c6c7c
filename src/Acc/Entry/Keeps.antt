-- ===== src/Acc/Entry/Keeps.antt =====
-- What a whole call of the eight functions does, from the hook to its return.
use libsysve.Prelude.{ℕ, ◌≡◌, inl, inr, refl, false, ◌==◌, Bytes, List, Bool-cases, ◌∙◌, sym}
use libsysve.Acc.Vh.{AccIoInfo}
use libsysve.Acc.Process.{Process, World}
use libsysve.Acc.Resources.{Claim, success, fail, nobuf, pre, post}
use libsysve.Acc.Resources.Claiming.{Settles, pre-Settles}
use libsysve.Acc.Entry.{
  Numbers, Args, Answer, free_io_hook, Direct, call_direct, offload, serve, run_read, run_write,
  read_pread, readv_preadv, write_pwrite, writev_pwritev,
}
use libsysve.Acc.Read
use libsysve.Acc.Write
use libsysve.Acc.Iov.{Iovec}

-- The parts of the process that a call leaves alone: the claim on the buffers, the signal mask, and the
-- lock.
abbrev pub Quiet : {S : Type 0} → Process S → Process S → Type 0
Quiet p q =
    (q.ve_buff_using_flag ≡ p.ve_buff_using_flag)
    × (q.sigmask ≡ p.sigmask)
    × (p.list_locked ≡ false → q.list_locked ≡ false)

module _ {S : Type 0} (w : World S) (plain : Process S → Answer S)
    (moved : AccIoInfo → Process S → Answer S)
    (plain_quiet : (q : Process S) → Quiet q (plain q).process)
    (moved_quiet : (io : AccIoInfo) (q : Process S) → Quiet q (moved io q).process) where
  offload-Quiet :
      (p : Process S) (out : Claim × Process S)
      → Settles w p p.errno p.ve_buff_using_flag out
      → ((io : AccIoInfo) → out.0 ≡ success io → p.ve_buff_using_flag ≡ false)
      → Quiet p (offload plain moved out).process
  unfolding offload post free_io_hook
  offload-Quiet p (success io, q) (k, e) free =
      let m : Quiet q (moved io q).process = moved_quiet io q in
      (sym (free io refl), m.1 ∙ k.0, λ h. m.2 (k.3 h))
  offload-Quiet p (fail, q) (k, e) free =
      let m : Quiet (free_io_hook q) (plain (free_io_hook q)).process =
        plain_quiet (free_io_hook q) in
      (m.0 ∙ e.0, m.1 ∙ k.0, λ h. m.2 (k.3 h))
  offload-Quiet p (nobuf, q) (k, e) free =
      let m : Quiet q (plain q).process = plain_quiet q in (m.0 ∙ e.0, m.1 ∙ k.0, λ h. m.2 (k.3 h))

  serve-Quiet :
      (args : Args) (mem : Bytes) (p : Process S) → Quiet p (serve w plain moved args mem p).process
  unfolding serve
  serve-Quiet args mem p = elim (Bool-cases (args.count == 0)) [
    | inl e ↦ rw e (plain_quiet p)
    | inr e ↦ rw e (elim (Bool-cases (args.buf == 0)) [
      | inl b ↦ rw b (refl, refl, λ h. h)
      | inr b ↦ rw b (offload-Quiet p (pre w p) (pre-Settles w p).0 (pre-Settles w p).1)
    ])
  ]

call_direct-Quiet :
    {S : Type 0} (direct : Direct S) (number : ℕ) (args : Args) (mem : Bytes) (p : Process S)
    → Quiet p (call_direct direct number args mem p).process
unfolding call_direct
call_direct-Quiet direct number args mem p = (refl, refl, λ h. h)

module _ {K D : Type 0} (numbers : Numbers) (w : World (K × D)) (direct : Direct (K × D))
    (vh ve : ℕ → Bytes) (e : Read.Env K D) (e' : Write.Env K D) (number : ℕ) (args : Args)
    (iov : List Iovec) (mem : Bytes) (p : Process (K × D)) where
  -- However a request of the four functions ends, the buffers' flag and the signal mask are as
  -- they were, and the list's lock is free if it was.
  pub entries-Quiet :
      Quiet p (read_pread numbers w direct vh ve e number args mem p).process
      × Quiet p (readv_preadv numbers w direct vh ve e number args iov mem p).process
      × Quiet p (write_pwrite numbers w direct vh ve e' number args mem p).process
      × Quiet p (writev_pwritev numbers w direct vh ve e' number args iov mem p).process
  unfolding read_pread readv_preadv write_pwrite writev_pwritev run_read run_write
  entries-Quiet = (
    serve-Quiet w _ _ (call_direct-Quiet direct number args mem) (λ io q. (refl, refl, λ h. h)) args
        mem p,
    serve-Quiet w _ _ (call_direct-Quiet direct number args mem) (λ io q. (refl, refl, λ h. h)) args
        mem p,
    serve-Quiet w _ _ (call_direct-Quiet direct number args mem) (λ io q. (refl, refl, λ h. h)) args
        mem p,
    serve-Quiet w _ _ (call_direct-Quiet direct number args mem) (λ io q. (refl, refl, λ h. h)) args
        mem p,
  )

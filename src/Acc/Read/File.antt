-- ===== src/Acc/Read/File.antt =====
-- The plain read of a regular file: the calls on its chunks come to one call for all of it.
use libsysve.Prelude.{
  ℕ, zero, suc, ◌+◌, ◌-◌, ◌*◌, ◌^◌, ◌≤◌, ◌<◌, ◌≡◌, refl, ◌==◌, ltb, Bytes, arith, Bool-cases, inl,
  inr, ap, ◌∙◌, sym,
}
use Prim.Native.Nat.{min}
use libsysve.Prelude.Int.{pos}
use libsysve.Acc.Vh.{Request, paras_size}
use libsysve.Acc.Control.{rounds, size_in, size_in_bounds, size_in-le, rounds-zero}
use libsysve.Acc.Read.Types.{ReadReply, got, Result, Job}
use libsysve.Acc.Read.Plain.{Progress, request, ended, taken, after, plain_read}

-- The answers to the system call `number` on the file `fd`, for at most a chunk: a file that has `avail` bytes from the start of the read on, the contents `contents`. `kernel_at t` is
-- the VH when `t` of them are read: its offset moves on for read, and stays for pread.
pub record ReadsFile {K : Type 0} (read : K → Request → ReadReply × K) (number fd ofs : ℕ)
    (contents : Bytes) (avail : ℕ) (kernel_at : ℕ → K) : Type 0 where
  pub reads :
      (t : ℕ) (r : Request)
      → r.number ≡ number
      → r.fd ≡ fd
      → r.size ≤ paras_size
      → r.ofs ≡ ofs + t
      → read (kernel_at t) r ≡ (
        got (min r.size (avail - t)) (λ x. contents (t + x)),
        kernel_at (t + min r.size (avail - t)),
      )

module _ {K T : Type 0} (read : K → Request → ReadReply × K) (put : T → Bytes → ℕ → T)
    (second_flag : ℕ) (buffer : ℕ → ℕ) (job : Job) (contents : Bytes) (avail : ℕ)
    (kernel_at : ℕ → K) (file : ReadsFile read job.number job.fd job.ofs contents avail kernel_at)
    (Holds : ℕ → T → Type 0)
    (holds : (t n : ℕ) (s : T)
      → Holds t s
      → t + n ≤ job.count
      → 0 < n
      → Holds (t + n) (put s (λ x. contents (t + x)) n))
    (small : job.count < 2 ^ 63) where
  -- All that there is of the request, delivered.
  abbrev pub Whole : ℕ → Result K T → Type 0
  Whole errno r =
      (r.ret ≡ pos (min job.count avail))
      × (r.errno ≡ errno)
      × (r.kernel ≡ kernel_at (min job.count avail))
      × Holds (min job.count avail) r.sink

  -- `t` bytes have been read when round `i` starts.
  abbrev pub At : ℕ → Progress K T → Type 0
  At i p =
      (p.kernel ≡ kernel_at p.total)
      × (p.ofs ≡ job.ofs + p.total)
      × Holds p.total p.sink
      × (p.total ≤ avail)
      × (p.total ≤ job.count)
      × (i < rounds job.count → p.total ≡ paras_size * i)
      × (i ≡ rounds job.count → p.total ≡ job.count)

  ended-Whole :
      (p : Progress K T)
      → p.kernel ≡ kernel_at p.total
      → Holds p.total p.sink
      → p.total ≡ min job.count avail
      → Whole p.errno (ended read put second_flag buffer job (rounds job.count - 1) p)
  ended-Whole p k h all = rw (sym all) (refl, refl, k, h)

  -- The answer to round `i`, and what follows it.
  after-Whole :
      (i n : ℕ) (p : Progress K T) (next : Progress K T → Result K T)
      → i < rounds job.count
      → At i p
      → n ≡ min (size_in job.count i) (avail - p.total)
      → ((q : Progress K T) → At (suc i) q → q.errno ≡ p.errno → Whole p.errno (next q))
      → Whole p.errno (
          after read put second_flag buffer job
            (rounds job.count - 1)
            i
            p
            (got n (λ x. contents (p.total + x)), kernel_at (p.total + n))
            next)
  after-Whole i n p next lt (k, o, h, av, le, early, late) amount rest =
      let (some, room, onward, end) = size_in_bounds job.count i small lt in
      let start : p.total ≡ paras_size * i = early lt in
      elim (Bool-cases (n == 0)) [
        | inl none_left ↦ rw none_left (
            ended-Whole (record p { kernel = kernel_at (p.total + n) })
              (ap kernel_at (ground (arith, none_left))) h
              (ground (arith, none_left, amount, some)))
        | inr more ↦ rw more (elim (Bool-cases (ltb n (size_in job.count i))) [
          | inl short ↦ rw short (
              ended-Whole
                (taken read put second_flag buffer job (rounds job.count - 1) n
                  (λ x. contents (p.total + x)) (kernel_at (p.total + n)) p)
                refl
                (holds p.total n p.sink h (omega (arith, amount, room, start))
                  (ground (arith, more)))
                (ground (arith, short, amount, room, start)))
          | inr full ↦ rw full (
              rest
                (taken read put second_flag buffer job (rounds job.count - 1) n
                  (λ x. contents (p.total + x)) (kernel_at (p.total + n)) p)
                (
                  refl,
                  omega (arith, o),
                  holds p.total n p.sink h (omega (arith, amount, room, start))
                      (ground (arith, more)),
                  omega (arith, amount),
                  omega (arith, amount, room, start),
                  (λ later. ground (arith, full, amount, start, onward later)),
                  (λ last. ground (arith, full, amount, start, end last)),
                )
                refl)
        ])
      ]

  pub plain_read-Whole :
      (left i : ℕ) (p : Progress K T)
      → i + left ≡ rounds job.count
      → At i p
      → Whole p.errno (plain_read read put second_flag buffer job (rounds job.count - 1) left i p)
  unfolding plain_read
  plain_read-Whole zero i p sum (k, o, h, av, le, early, late) =
      ended-Whole p k h (omega (arith, late (omega arith)))
  plain_read-Whole (suc left) i p sum at =
      let (k, o, h, av, le, early, late) = at in
      let asked : Request = request read put second_flag buffer job (rounds job.count - 1) i p in
      let answer : read p.kernel asked ≡ (
        got (min asked.size (avail - p.total)) (λ x. contents (p.total + x)),
        kernel_at (p.total + min asked.size (avail - p.total)),
      ) =
        ap (λ z. read z asked) k
        ∙ file.reads p.total asked refl refl (size_in-le job.count i small (omega arith)) o in
      rw answer (
        after-Whole i _ p
          (plain_read read put second_flag buffer job (rounds job.count - 1) left (suc i))
          (omega arith) at refl
          (λ q at' same. rw (sym same) (plain_read-Whole left (suc i) q (omega arith) at')))

  -- From the start of the read.
  pub plain_read-file :
      (p : Progress K T)
      → p.kernel ≡ kernel_at 0
      → p.ofs ≡ job.ofs
      → p.total ≡ 0
      → Holds 0 p.sink
      → Whole p.errno
          (plain_read read put second_flag buffer job (rounds job.count - 1) (rounds job.count) 0 p)
  plain_read-file p k o t h = plain_read-Whole (rounds job.count) 0 p (omega arith) (
    k ∙ ap kernel_at (sym t),
    omega (arith, o, t),
    rw t h,
    omega (arith, t),
    omega (arith, t),
    (λ _. omega (arith, t)),
    (λ none. omega (arith, t, rounds-zero job.count small (sym none))),
  )

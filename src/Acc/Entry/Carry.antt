-- ===== src/Acc/Entry/Carry.antt =====
-- From the answer of a whole request to the result of its transfer, and from there to plain system calls.
use libsysve.Prelude.{
  ℕ, ◌-◌, ◌+◌, ◌*◌, ◌≤◌, ◌<◌, ◌≡◌, ◌≢◌, ◌⊎◌, inl, inr, refl, false, ◌==◌, leb, Bytes, arith, ◌∙◌,
  ap,
}
use libsysve.Prelude.Int.{minus_one}
use libsysve.Acc.Vh.{AccIoInfo, eio, paras_size}
use libsysve.Acc.Windows.{Apart}
use libsysve.Acc.Control.{rounds}
use libsysve.Acc.Process.{AccIoResources, Process, World}
use libsysve.Acc.Resources.{success, pre, post, io_info_of}
use libsysve.Acc.Entry.{Numbers, Args, Answer, Direct, offload, serve, run_read, run_write}
use libsysve.Acc.Read
use libsysve.Acc.Engine.{FaultyFrom}
use libsysve.Acc.Read.Types.{Result, Job}
use libsysve.Acc.Read.Plain.{plain_read}
use libsysve.Acc.Read.Seen.{transfer-plain_read_seen}
use libsysve.Acc.Write
use libsysve.Acc.Write.Plain.{plain_write}
use libsysve.Acc.Write.Seen.{transfer-plain_write_seen}

-- The answer carries the plain result.
abbrev pub Carries : {K D T : Type 0} → Answer (K × D) → (T → Bytes) → Result K T → Type 0
Carries a mem_of r =
    (a.ret ≡ r.ret)
    × (a.mem ≡ mem_of r.sink)
    × (a.process.errno ≡ r.errno)
    × (a.process.sys.0 ≡ r.kernel)

-- The answer of a failed DMA transfer.
abbrev pub DmaError : {S : Type 0} → Answer S → Type 0
DmaError a = (a.ret ≡ minus_one) × (a.process.errno ≡ eio)

-- An answer that agrees with another on what the caller sees.
abbrev pub Agreeing : {S : Type 0} → Answer S → Answer S → Type 0
Agreeing a b =
    (a.ret ≡ b.ret)
    × (a.mem ≡ b.mem)
    × (a.process.errno ≡ b.process.errno)
    × (a.process.sys ≡ b.process.sys)

pub carry :
    {K D T F : Type 0} (a b : Answer (K × D)) (mem_of : T → Bytes) (r : Result K T)
    → Agreeing a b
    → Carries b mem_of r ⊎ (DmaError b × F)
    → Carries a mem_of r ⊎ (DmaError a × F)
carry a b mem_of r (x, y, z, u) (inl (c, d, f, g)) = inl (x ∙ c, y ∙ d, z ∙ f, ap (λ s. s.0) u ∙ g)
carry a b mem_of r (x, y, z, u) (inr ((c, d), f)) = inr ((x ∙ c, z ∙ d), f)

pub serve-claimed :
    {S : Type 0} (w : World S) (plain : Process S → Answer S)
    (moved : AccIoInfo → Process S → Answer S) (args : Args) (mem : Bytes) (p q : Process S)
    (io : AccIoInfo)
    → args.count ≢ 0
    → args.buf ≢ 0
    → pre w p ≡ (success io, q)
    → let a = serve w plain moved args mem p in Agreeing a (moved io q)
unfolding serve offload post
serve-claimed w plain moved args mem p q io some_count some_buf claim =
    rw (count_false, buf_false, claim) (refl, refl, refl, refl)
  where
    count_false : (args.count == 0) ≡ false
    count_false = ground arith

    buf_false : (args.buf == 0) ≡ false
    buf_false = ground arith

-- The 8 MB that each side has in the VE host virtual space do not overlap.
abbrev pub Regions : AccIoResources → Type 0
Regions r = (r.vehva + 2 * paras_size ≤ r.local_vehva) ⊎ (r.local_vehva + 2 * paras_size ≤ r.vehva)

pub io_info_of-Apart : (flag : ℕ) (r : AccIoResources) → Regions r → Apart (io_info_of flag r)
unfolding io_info_of
io_info_of-Apart flag r regions = record {
  vh = omega (arith, regions);
  ve = omega (arith, regions);
  across = λ i j li lj. omega (arith, regions);
}

pub run_read-plain_read :
    {K D T : Type 0} (numbers : Numbers) (w : World (K × D)) (direct : Direct (K × D))
    (vh ve : ℕ → Bytes) (e : Read.Env K D) (put : T → Bytes → ℕ → T) (job : Job) (sink : T)
    (mem_of : T → Bytes) (io : AccIoInfo) (q : Process (K × D))
    → Read.Step.Sound e put io job
    → let b = run_read numbers w direct vh ve e put job sink mem_of io q in
      Carries b mem_of (
        plain_read e.read put e.second_flag io.vh_buff_and_flag job
          (rounds job.count - 1)
          (rounds job.count)
          0
          (record { kernel = q.sys.0; sink = sink; total = 0; ofs = job.ofs; errno = q.errno }))
      ⊎ (DmaError b × FaultyFrom e.post e.wait q.sys.1)
unfolding run_read Read.transfer
run_read-plain_read numbers w direct vh ve e put job sink mem_of io q ok =
    elim (transfer-plain_read_seen e put io job q.sys.1 ok q.sys.0 sink q.errno vh ve) [
      | inl eq ↦ inl (
        ap (λ r. r.ret) eq,
        ap (λ r. mem_of r.sink) eq,
        ap (λ r. r.errno) eq,
        ap (λ r. r.kernel) eq,
      )
      | inr (a, b, f) ↦ inr ((a, b), f)
    ]

pub run_write-plain_write :
    {K D T : Type 0} (numbers : Numbers) (w : World (K × D)) (direct : Direct (K × D))
    (vh ve : ℕ → Bytes) (e : Write.Env K D) (fill : T → ℕ → Write.Types.Chunk T) (job : Job)
    (source : T) (mem : Bytes) (io : AccIoInfo) (q : Process (K × D))
    (ok : Write.Step.Sound e io job)
    (whole : (i : ℕ)
      → i < rounds job.count
      → (fill
          (Write.Step.source_at e fill io job source i)
          (Write.Step.size_of e fill io job i)).less
        ≡ 0)
    → let b = run_write numbers w direct vh ve e fill job source mem io q in
      Carries b
        (λ _. mem)
        (plain_write e.write fill e.second_flag io.vh_buff_and_flag job
          (rounds job.count - 1)
          (leb 2 (rounds job.count))
          (rounds job.count)
          0
          (record { kernel = q.sys.0; source = source; total = 0; ofs = job.ofs; errno = q.errno }))
      ⊎ (DmaError b × FaultyFrom e.post e.wait q.sys.1)
unfolding run_write Write.transfer
run_write-plain_write numbers w direct vh ve e fill job source mem io q ok whole =
    elim (transfer-plain_write_seen e fill io job q.sys.1 ok source whole q.sys.0 q.errno vh ve) [
      | inl eq ↦ inl (ap (λ r. r.ret) eq, refl, ap (λ r. r.errno) eq, ap (λ r. r.kernel) eq)
      | inr (a, b, f) ↦ inr ((a, b), f)
    ]

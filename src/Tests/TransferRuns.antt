-- ===== src/Tests/TransferRuns.antt =====
-- The transfers of src/accelerated_io.c at a file of 9 MB, on engines that move the bytes at once or
-- not before the wait.
use libsysve.Prelude.{ℕ, ◌+◌, ◌*◌, ◌^◌, arith, ◌-◌, ◌%◌, ◌≡◌, refl, true, false, leb, Bytes, ◌⊎◌}
use Prim.Native.Nat.{min}
use libsysve.Prelude.Int.{minus_one}
use libsysve.Acc.Vh.{Request, accepted, AccIoInfo, paras_size, eio}
use libsysve.Acc.Windows.{Apart}
use libsysve.Acc.Read.Step.{Honest}
use libsysve.Acc.Control.{rounds}
use libsysve.Acc.Read.Types.{ReadReply, got, Result, Job}
use libsysve.Acc.Watch.{watch}
use libsysve.Acc.Read.{transfer, start, drain, read_loop}
use libsysve.Acc.Read.Watch.{watched, read_loop-waits}
use libsysve.Acc.Write.Watch as WriteWatch
use libsysve.Acc.Write.Watch.{write_loop-waits}
use libsysve.Acc.Read
use libsysve.Acc.Read.Plain.{plain_read}
use libsysve.Acc.Engine.{FaultyFrom}
use libsysve.Acc.Read.Seen.{transfer-plain_read_seen}
use libsysve.Acc.Buffer.{Cursor, put_buffer, put_buffer-congr, fill_buffer}
use libsysve.Acc.Write.Types.{WriteReply, wrote}
use libsysve.Acc.Write
use libsysve.Acc.Write.Plain.{plain_write}
use libsysve.Acc.Write.Seen.{transfer-plain_write_seen}

abbrev file_size : ℕ
file_size = 9 * 1024 * 1024

-- `k` is the file's offset.
abbrev read_file : ℕ → Request → ReadReply × ℕ
read_file k r = let n = min r.size (file_size - k) in (got n (λ x. k + x), k + n)

abbrev read_env : Read.Env ℕ (Unit {0})
read_env = record {
  second_flag = 4;
  read = read_file;
  post = λ d t. (accepted 0 false, d);
  wait = λ d h. (0, d);
}

abbrev slots : AccIoInfo
slots = record {
  vh_buff_and_flag = λ j. 8 + paras_size * j;
  ve_buff = λ j. 1000 + paras_size * j;
  vh_vehva = λ j. 2 ^ 41 + paras_size * j;
  ve_vehva = λ j. 2 ^ 40 + paras_size * j;
}

abbrev read_job : Job
read_job = record { number = 0; fd = 3; count = 10 * 1024 * 1024; ofs = 0 }

slots-Apart : Apart slots
slots-Apart = record { vh = omega arith; ve = omega arith; across = λ i j li lj. omega arith }

read_env-Honest : Honest read_env.read
read_env-Honest k r n bytes q = ground (arith, q)

abbrev cursor : Cursor
cursor = record { mem = λ _. 0; buf = 0 }

abbrev zeroed : ℕ → Bytes
zeroed j k = 0

abbrev read_out : Result ℕ Cursor
read_out =
    transfer read_env put_buffer slots read_job
      (start read_env put_buffer slots read_job 0 tt cursor 0 zeroed zeroed)

transfer-plain_read_seen_example :
    (read_out
      ≡ plain_read read_file put_buffer 4 slots.vh_buff_and_flag read_job
          (rounds (10 * 1024 * 1024) - 1)
          (rounds (10 * 1024 * 1024))
          0
          (record { kernel = 0; sink = cursor; total = 0; ofs = 0; errno = 0 }))
    ⊎ ((read_out.ret ≡ minus_one)
        × (read_out.errno ≡ eio)
        × FaultyFrom read_env.post read_env.wait tt)
transfer-plain_read_seen_example =
    transfer-plain_read_seen read_env put_buffer slots read_job tt
      (record {
        congr = put_buffer-congr;
        apart = slots-Apart;
        honest = read_env-Honest;
        small = omega arith;
      })
      0 cursor 0 zeroed zeroed

read_loop-waits_example :
    let env = watched read_env put_buffer slots read_job in
    let s = start env put_buffer slots read_job 0 (watch tt) cursor 0 zeroed zeroed in
    let out =
      drain env put_buffer slots read_job
        (read_loop env put_buffer slots read_job (rounds (10 * 1024 * 1024)) 0 s) in
    (out.dma.misused ≡ false) × (out.dma.under_way 2 ≡ false)
read_loop-waits_example =
    read_loop-waits read_env put_buffer slots read_job 0 tt cursor 0 zeroed zeroed 2

-- The disk accepts 9 MB.
abbrev write_file : ℕ → Request → Bytes → WriteReply × ℕ
write_file k r f = let n = min r.size (file_size - k) in (wrote n, k + n)

abbrev write_env : Write.Env ℕ (Unit {0})
write_env = record {
  second_flag = 4;
  write = write_file;
  post = λ d t. (accepted 0 true, d);
  wait = λ d h. (0, d);
}

abbrev write_job : Job
write_job = record { number = 1; fd = 3; count = 10 * 1024 * 1024; ofs = 0 }

abbrev user_bytes : Bytes
user_bytes k = k % 256

abbrev write_out : Result ℕ (Unit {0})
write_out =
    Write.transfer write_env (fill_buffer user_bytes) slots write_job
      (Write.start write_env (fill_buffer user_bytes) slots write_job 0 tt 64 0 zeroed zeroed)

transfer-plain_write_seen_example :
    (write_out
      ≡ plain_write write_file
          (fill_buffer user_bytes)
          4
          slots.vh_buff_and_flag
          write_job
          (rounds (10 * 1024 * 1024) - 1)
          (leb 2 (rounds (10 * 1024 * 1024)))
          (rounds (10 * 1024 * 1024))
          0
          (record { kernel = 0; source = 64; total = 0; ofs = 0; errno = 0 }))
    ⊎ ((write_out.ret ≡ minus_one)
        × (write_out.errno ≡ eio)
        × FaultyFrom write_env.post write_env.wait tt)
unfolding fill_buffer
transfer-plain_write_seen_example =
    transfer-plain_write_seen write_env (fill_buffer user_bytes) slots write_job tt
      (record { congr = λ k r f g same. refl; apart = slots-Apart; small = omega arith }) 64
      (λ i lt. refl) 0 0 zeroed zeroed

write_loop-waits_example :
    let fill = fill_buffer user_bytes in
    let env = WriteWatch.watched write_env fill slots write_job in
    let s = Write.start env fill slots write_job 0 (watch tt) 64 0 zeroed zeroed in
    let out =
      Write.drain env fill slots write_job
        (Write.write_loop env fill slots write_job (rounds (10 * 1024 * 1024)) 0 s) in
    (out.dma.misused ≡ false) × (out.dma.under_way 2 ≡ false)
write_loop-waits_example =
    write_loop-waits write_env (fill_buffer user_bytes) slots write_job 0 tt 64 0 zeroed zeroed 2

-- ===== src/Acc/Read/Plain.antt =====
-- The read that an application asks for, with no buffers, DMA or overlap: one call for each chunk,
-- in order, until one of them fails, comes back empty or comes back short.
use libsysve.Prelude.{ℕ, zero, suc, ◌+◌, ◌-◌, ◌*◌, ◌%◌, ◌==◌, ltb, if◌then◌else◌, Bytes}
use libsysve.Prelude.Int.{pos, minus_one}
use libsysve.Acc.Vh.{Request, buff_nparas, paras_size, mark_second}
use libsysve.Acc.Read.Types.{ReadReply, failed, got, Result, Job}

-- What has been read so far.
pub record Progress (K T : Type 0) : Type 0 where
  pub kernel : K
  pub sink : T
  pub total : ℕ
  pub ofs : ℕ
  pub errno : ℕ

module _ {K T : Type 0} (read : K → Request → ReadReply × K) (put : T → Bytes → ℕ → T)
    (second_flag : ℕ) (buffer : ℕ → ℕ) (job : Job) (last : ℕ) where
  abbrev pub chunk_size : ℕ → ℕ
  chunk_size i = if i == last then job.count - paras_size * i else paras_size

  -- The VH buffers are used in turn; all calls but the first carry the flag.
  abbrev pub chunk_buffer : ℕ → ℕ
  chunk_buffer i = (if i == 0 then buffer else mark_second second_flag buffer) (i % buff_nparas)

  abbrev pub request : ℕ → Progress K T → Request
  request i p = record {
    number = job.number;
    fd = job.fd;
    buf = chunk_buffer i;
    size = chunk_size i;
    ofs = p.ofs;
  }

  abbrev pub ended : Progress K T → Result K T
  ended p = record { ret = pos p.total; errno = p.errno; sink = p.sink; kernel = p.kernel }

  -- A first call that fails fails the read; a later one ends it, with `errno` cleared.
  abbrev pub refused : ℕ → ℕ → K → Progress K T → Result K T
  refused i err k p = record {
    ret = if i == 0 then minus_one else pos p.total;
    errno = if i == 0 then err else 0;
    sink = p.sink;
    kernel = k;
  }

  abbrev pub taken : ℕ → Bytes → K → Progress K T → Progress K T
  taken n bytes k p = record {
    kernel = k;
    sink = put p.sink bytes n;
    total = p.total + n;
    ofs = p.ofs + n;
    errno = p.errno;
  }

  abbrev pub after : ℕ → Progress K T → ReadReply × K → (Progress K T → Result K T) → Result K T
  after i p (failed err, k) next = refused i err k p
  after i p (got n bytes, k) next =
      if n == 0
      then ended (record p { kernel = k })
      else (if ltb n (chunk_size i) then ended (taken n bytes k p) else next (taken n bytes k p))

  unfoldable pub plain_read : (left i : ℕ) → Progress K T → Result K T
  plain_read zero i p = ended p
  plain_read (suc left) i p = after i p (read p.kernel (request i p)) (plain_read left (suc i))

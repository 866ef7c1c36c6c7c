-- ===== src/Tests/IovRuns.antt =====
-- Two `iovec`s of three and four bytes, and five bytes for them.
use libsysve.Prelude.{◌+◌, ◌≡◌, List, [], ◌∷◌, arith}
use libsysve.Acc.Iov.{Iovec, drop_iov, total_size, Scatter, scatter, gather}
use libsysve.Acc.Iov.Address.{address, IsAt-start}
use libsysve.Acc.Iov.Spread.{Separate, gather-scatter}

abbrev two : List Iovec
two = record { iov_base = 100; iov_len = 3 } ∷ record { iov_base = 50; iov_len = 4 } ∷ []

two-Separate : Separate two
unfolding address total_size
two-Separate x y lt below = ground arith

abbrev empty : Scatter
empty = record { mem = λ _. 0; place = record { next_iov_num = 0; iov_len_done = 0 } }

gather-scatter_example :
    (gather (scatter two empty (λ k. k + 7) 5).mem two empty.place 5).bytes 4 ≡ 11
unfolding total_size drop_iov
gather-scatter_example =
    gather-scatter two 0 5 (λ k. k + 7) empty two-Separate (IsAt-start two) (omega arith) 4
      (omega arith)

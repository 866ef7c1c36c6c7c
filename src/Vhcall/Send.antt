-- ===== src/Vhcall/Send.antt =====
-- The whole of `vhcall_invoke_with_args` in src/libvhcall.c, up to its system call.
use libsysve.Prelude.{
  ℕ, zero, suc, ◌+◌, ◌*◌, ◌≡◌, refl, Bool, true, false, List, Option, none, some, arith, inl, inr,
  ◌⊎◌,
}
use libsysve.Vhcall.{
  Node, VhcallArgs, Header, einval, enomem, Walked, walked, stopped, Invoke, refused, sent, packed,
  first_loop, invoke_with_args,
}
use libsysve.Vhcall.Buffer.{many, Row, Fits, walk_free-Fits, walk-Fits}

-- The buffer holds `insize` bytes, and the arguments have the numbers 0, 1, 2, ...; or the errno is one of
-- the two.
abbrev pub Sound : Header → Invoke → Type 0
Sound hd (refused err nodes) = (err ≡ einval) ⊎ (err ≡ enomem)
Sound hd (sent inptr insize nodes) = (many inptr * hd.sizeof_data ≡ insize) × Row 0 nodes

packed-Sound :
    (hd : Header) (memory : Bool) (stale : ℕ) (Whole : List Node → Type 0) (out : Walked)
    → Fits hd stale 0 Whole out
    → Sound hd (packed hd memory stale out)
unfolding packed
packed-Sound hd memory stale Whole (stopped err nodes) fits = fits
packed-Sound hd memory stale Whole (walked nodes zero) (size, row, whole) =
    (rw size (ground arith), row)
packed-Sound hd true stale Whole (walked nodes (suc n)) (size, row, whole) = (rw size refl, row)
packed-Sound hd false stale Whole (walked nodes (suc n)) fits = inr refl

-- For every list, vhcall_invoke_with_args fails with EINVAL or ENOMEM before its system call, or
-- sends a buffer of exactly insize bytes for arguments whose numbers leave no gap.
pub invoke_with_args-Sound :
    (hd : Header) (node_memory : ℕ → Bool) (memory : Bool) (stale : ℕ) (args : Option VhcallArgs)
    → Sound hd (invoke_with_args hd node_memory memory stale args)
unfolding invoke_with_args first_loop
invoke_with_args-Sound hd node_memory memory stale none = inl refl
invoke_with_args-Sound hd node_memory memory stale (some args) = sound args.args_num
  where
    sound :
        (args_num : Option ℕ)
        → Sound hd (packed hd memory stale (first_loop hd node_memory args_num args.nodes))
    sound none = packed-Sound hd memory stale _ _ (walk_free-Fits hd stale 0 args.nodes)
    sound (some n) =
        packed-Sound hd memory stale _ _
          (walk-Fits hd node_memory stale n (n + 2) 0 args.nodes (omega arith) (omega arith))

-- ===== src/Tests/VhcallRuns.antt =====
-- Argument lists of src/libvhcall.c.
use libsysve.Prelude.{ℕ, ◌+◌, ◌≡◌, ◌*◌, ◌^◌, true, [], ◌∷◌, some, arith}
use libsysve.Prelude.Int.{pos}
use libsysve.Vhcall.{
  class_int, class_cdb, Node, VhcallArgs, Header, args_set, args_set_pointer, args_set_int,
  args_set_veoshandle, fresh, class_ptr, class_hdl, invoke_with_args, low_bytes, find, walk,
  walk_free,
}
use libsysve.Vhcall.Send.{Sound, invoke_with_args-Sound}
use libsysve.Vhcall.Args.{From, Written, args_set-Written}
use libsysve.Vhcall.Setters.{
  args_set_float, args_set_double, args_set_complex_float, args_set_complex_double,
}
use libsysve.Vhcall.Delivery.{with_data, Delivers, number, setters-Delivers}
use libsysve.Vhcall.Buffer.{Fits, many, walk-Fits, walk_free-Fits}

abbrev header : Header
header = record { intent_in = 0; intent_out = 2; zero_class = class_int; sizeof_data = 40 }

abbrev argument : ℕ → Node
argument n = record {
  num = n;
  data_of = record { val0 = n + 5; val1 = 6; inout = 0; size = 16; cl = class_cdb };
}

abbrev some_args : VhcallArgs
some_args = record { args_num = some 4; nodes = argument 0 ∷ argument 2 ∷ [] }

args_set-Written_example :
    Written header true some_args 0 1
      (record { val0 = 77; val1 = 0; inout = 0; size = 4; cl = class_int })
      (args_set header true some_args 0 (pos 1) (low_bytes 4 77) 4 class_int)
    × Written header true some_args 0 1
        (record { val0 = 4096; val1 = 0; inout = 0; size = 16; cl = class_ptr })
        (args_set_pointer header true some_args 0 (pos 1) 4096 16)
    × Written header true some_args 0 1
        (record { val0 = 44; val1 = 0; inout = 0; size = 1; cl = class_int })
        (args_set_int 1 header true some_args (pos 1) 300)
    × Written header true some_args 0 1
        (record { val0 = 0; val1 = 0; inout = 0; size = 0; cl = class_hdl })
        (args_set_veoshandle header true some_args (pos 1))
unfolding find low_bytes fresh
args_set-Written_example =
    args_set-Written header true some_args 0 1 (low_bytes 4 77) 4 class_int 1 300 4096 16
      (omega arith, (omega arith, tt))

walk-Fits_example :
    Fits header 9 0 (λ ys. many ys + 0 ≡ 4) (walk header (λ k. true) 4 6 0 some_args.nodes)
walk-Fits_example = walk-Fits header (λ k. true) 9 4 6 0 some_args.nodes (omega arith) (omega arith)

walk_free-Fits_example :
    Fits header 9 0 (λ ys. many ys ≡ 2) (walk_free 0 (argument 0 ∷ argument 1 ∷ []))
walk_free-Fits_example = walk_free-Fits header 9 0 (argument 0 ∷ argument 1 ∷ [])

invoke_with_args-Sound_example :
    Sound header (invoke_with_args header (λ k. true) true 9 (some some_args))
invoke_with_args-Sound_example = invoke_with_args-Sound header (λ k. true) true 9 (some some_args)

rest-From : From 0 (argument 0 ∷ argument 2 ∷ argument 3 ∷ [])
rest-From = (omega arith, (omega arith, (omega arith, tt)))

setters-Delivers_example :
    let ca =
      with_data header true 9
        (some 4)
        (argument 0 ∷ [])
        (argument 2)
        (argument 3 ∷ [])
        rest-From
        (argument 2).data_of in
    let sent =
      Delivers header true 9 (some 4) (argument 0 ∷ []) (argument 2) (argument 3 ∷ []) rest-From in
    sent (number header 4 77 6 ∷ []) (args_set_float header true ca (pos 2) 77)
    × sent (number header 8 77 6 ∷ []) (args_set_double header true ca (pos 2) 77)
    × sent
        (number header 8 (3 + 2 ^ 32 * 4) 6 ∷ [])
        (args_set_complex_float header true ca (pos 2) 3 4)
    × sent
        (number header 8 3 9 ∷ number header 8 4 9 ∷ [])
        (args_set_complex_double header true ca (pos 2) 3 4)
setters-Delivers_example =
    setters-Delivers header true 9 (some 4) (argument 0 ∷ []) (argument 2) (argument 3 ∷ [])
      rest-From 77 3 4 (omega arith) (omega arith) (omega arith) (omega arith) (omega arith)

-- ===== src/Vhcall/Setters.antt =====
-- The rest of the argument list of src/libvhcall.c: its allocation, and the setters of floating-point numbers,
-- which are given by their bit patterns.
use libsysve.Prelude.{ℕ, suc, List, ◌∷◌, ◌+◌, ◌*◌, ◌^◌, Bool, true, false, Option, none, some, []}
use libsysve.Prelude.Int.{ℤ}
use libsysve.Vhcall.{
  Node, VhcallArgs, Header, Status, enomem, class_dbl, class_cdb, args_set, args_alloc_num,
  low_bytes,
}

-- The object, and errno. `memory` is whether `calloc` succeeds.
unfoldable pub args_alloc : (memory : Bool) → (errno : ℕ) → Option VhcallArgs × ℕ
args_alloc false errno = (none, enomem)
args_alloc true errno = (some (record { args_num = none; nodes = [] }), errno)

-- `vhcall_args_alloc_num` with its failure.
unfoldable pub args_alloc_fixed : (memory : Bool) → (num : ℤ) → (errno : ℕ) → Option VhcallArgs × ℕ
args_alloc_fixed false num errno = (none, enomem)
args_alloc_fixed true num errno = (some (args_alloc_num num), errno)

unfoldable pub args_set_float : Header → Bool → VhcallArgs → ℤ → ℕ → Status × VhcallArgs
args_set_float hd memory ca argnum val =
    args_set hd memory ca hd.intent_in argnum (low_bytes 4 val) 4 class_dbl

unfoldable pub args_set_double : Header → Bool → VhcallArgs → ℤ → ℕ → Status × VhcallArgs
args_set_double hd memory ca argnum val =
    args_set hd memory ca hd.intent_in argnum (low_bytes 8 val) 8 class_dbl

-- A complex number is its real part and its imaginary part behind it, here of 32 bits each.
unfoldable pub args_set_complex_float :
    Header → Bool → VhcallArgs → ℤ → (re im : ℕ) → Status × VhcallArgs
args_set_complex_float hd memory ca argnum re im =
    args_set hd memory ca hd.intent_in argnum (low_bytes 8 (re + 2 ^ 32 * im)) 8 class_dbl

unfoldable pub args_set_complex_double :
    Header → Bool → VhcallArgs → ℤ → (re im : ℕ) → Status × VhcallArgs
args_set_complex_double hd memory ca argnum re im =
    args_set hd memory ca hd.intent_in argnum (λ word0 word1. record { word0 = re; word1 = im }) 16
      class_cdb

-- `vhcall_args_clear` and `vhcall_args_free` as what they give back to `free`: `freed` counts the calls.
unfoldable pub free_nodes : List Node → (freed : ℕ) → ℕ
free_nodes [] freed = freed
free_nodes (a ∷ xs) freed = free_nodes xs (suc freed)

unfoldable pub args_free : Option VhcallArgs → (freed : ℕ) → ℕ
args_free none freed = suc freed
args_free (some ca) freed = suc (free_nodes ca.nodes freed)

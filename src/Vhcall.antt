-- ===== src/Vhcall.antt =====
-- VH call, src/libvhcall.c: the argument list of a call to a function on the VH, kept in the order of
-- the argument numbers, and the buffer that it is sent in.
pub mod Args
pub mod Buffer
pub mod Send
pub mod Setters
pub mod Delivery
use libsysve.Prelude.{
  ℕ, zero, suc, ◌+◌, ◌-◌, ◌*◌, ◌/◌, ◌%◌, ◌^◌, Bool, true, false, ◌==◌, ltb, leb, if◌then◌else◌,
  ◌||◌, List, [], ◌∷◌, Option, none, some, ◌++◌,
}
use libsysve.Prelude.Int.{ℤ, pos, negsuc}

-- VHCALL_CLASS_*
pub data ArgsClass : Type 0 where
  class_int : ArgsClass
  class_dbl : ArgsClass
  class_cdb : ArgsClass
  class_ptr : ArgsClass
  class_hdl : ArgsClass

-- `vhcall_data`: two words of value, intent, size and class.
pub record VhcallData : Type 0 where
  pub val0 : ℕ
  pub val1 : ℕ
  pub inout : ℕ
  pub size : ℕ
  pub cl : ArgsClass

-- A node behind the head of the list.
pub record Node : Type 0 where
  pub num : ℕ
  pub data_of : VhcallData

-- `vhcall_args`: the head, whose own number is -1, and the nodes behind it. `args_num` is `none` for -1.
pub record VhcallArgs : Type 0 where
  pub args_num : Option ℕ
  pub nodes : List Node

-- Linux errno values.
abbrev pub einval : ℕ
einval = 22

abbrev pub enomem : ℕ
enomem = 12

-- VHCALL_INTENT_*, the class of a fresh node, and `sizeof(vhcall_data)`.
pub record Header : Type 0 where
  pub intent_in : ℕ
  pub intent_out : ℕ
  pub zero_class : ArgsClass
  pub sizeof_data : ℕ

-- The value an argument is set from: `memcpy`d words, for a pointer the address.
pub record Value : Type 0 where
  pub word0 : ℕ
  pub word1 : ℕ

-- A zeroed node, from `calloc`.
unfoldable pub fresh : Header → ℕ → Node
fresh hd n = record {
  num = n;
  data_of = record { val0 = 0; val1 = 0; inout = 0; size = 0; cl = hd.zero_class };
}

unfoldable pub args_alloc_num : ℤ → VhcallArgs
args_alloc_num (pos n) = record { args_num = some n; nodes = [] }
args_alloc_num (negsuc n) = record { args_num = none; nodes = [] }

-- The node stays before what the rest of the walk gave.
unfoldable pub behind : Node → Option (List Node) → Option (List Node)
behind a none = none
behind a (some xs) = some (a ∷ xs)

-- `vhcall_args_append`: the nodes with one for `n` among them. `memory` is whether `calloc` succeeds.
unfoldable pub args_append : Header → Bool → List Node → ℕ → Option (List Node)
args_append hd memory [] n = if memory then some (fresh hd n ∷ []) else none
args_append hd memory (a ∷ xs) n =
    let rest = args_append hd memory xs n in
    if ltb a.num n
    then behind a rest
    else (if a.num == n
        then some (a ∷ xs)
        else (if memory then some (fresh hd n ∷ a ∷ xs) else none))

-- Write through the pointer that `vhcall_args_append` returned.
unfoldable pub store : ℕ → (VhcallData → VhcallData) → List Node → List Node
store n f [] = []
store n f (a ∷ xs) =
    if a.num == n then record a { data_of = f a.data_of } ∷ xs else a ∷ store n f xs

-- The size bytes at `val` overwrite the start of the node's words.
unfoldable pub write_data : ℕ → ℕ → ArgsClass → (ℕ → ℕ → Value) → VhcallData → VhcallData
write_data inout size cl bytes d =
    let v = bytes d.val0 d.val1 in
    record { val0 = v.word0; val1 = v.word1; inout = inout; size = size; cl = cl }

-- The result of a setter: 0, or -1 with errno.
pub data Status : Type 0 where
  ok : Status
  error : ℕ → Status

-- What `vhcall_args_set` does with the node, or without memory for one.
unfoldable pub set_node :
    VhcallArgs → ℕ → (VhcallData → VhcallData) → Option (List Node) → Status × VhcallArgs
set_node ca n f none = (error enomem, ca)
set_node ca n f (some nodes) = (ok, record ca { nodes = store n f nodes })

-- `vhcall_args_set` on a list. `bytes` is the `memcpy` or assignment to the two words.
unfoldable pub args_set :
    Header
    → Bool
    → VhcallArgs
    → (inout : ℕ) → (argnum : ℤ) → (ℕ → ℕ → Value)
    → (size : ℕ) → ArgsClass
    → Status × VhcallArgs
args_set hd memory ca inout (negsuc n) bytes size cl = (error einval, ca)
args_set hd memory ca inout (pos n) bytes size cl =
    let set = set_node ca n (write_data inout size cl bytes) (args_append hd memory ca.nodes n) in
    if ltb inout hd.intent_in || ltb hd.intent_out inout then (error einval, ca) else set

-- `memcpy` of a `width`-byte integer over the start of the first word (little-endian).
unfoldable pub low_bytes : ℕ → ℕ → ℕ → ℕ → Value
low_bytes width v word0 word1 = record {
  word0 = word0 / 2 ^ (8 * width) * 2 ^ (8 * width) + v % 2 ^ (8 * width);
  word1 = word1;
}

-- The setters of the integers of 1, 2, 4 and 8 bytes.
unfoldable pub args_set_int : (width : ℕ) → Header → Bool → VhcallArgs → ℤ → ℕ → Status × VhcallArgs
args_set_int width hd memory ca argnum v =
    args_set hd memory ca hd.intent_in argnum (low_bytes width v) width class_int

unfoldable pub args_set_pointer :
    Header → Bool → VhcallArgs → (inout : ℕ) → ℤ → (buff len : ℕ) → Status × VhcallArgs
args_set_pointer hd memory ca inout argnum buff len =
    args_set hd memory ca inout argnum (λ word0 word1. record { word0 = buff; word1 = word1 }) len
      class_ptr

unfoldable pub args_set_veoshandle : Header → Bool → VhcallArgs → ℤ → Status × VhcallArgs
args_set_veoshandle hd memory ca argnum =
    args_set hd memory ca hd.intent_in argnum
      (λ word0 word1. record { word0 = word0; word1 = word1 }) 0 class_hdl

-- What an argument number holds.
unfoldable pub find : ℕ → List Node → Option VhcallData
find n [] = none
find n (a ∷ xs) = if a.num == n then some a.data_of else find n xs

-- `vhcall_args_set_u64(args, n, 0)` on a node that is not there.
unfoldable pub zero_u64 : Header → ℕ → Node
zero_u64 hd n = record {
  num = n;
  data_of = record { val0 = 0; val1 = 0; inout = hd.intent_in; size = 8; cl = class_int };
}

-- `vhcall_args_clear`
unfoldable pub args_clear : VhcallArgs → VhcallArgs
args_clear ca = record ca { nodes = [] }

-- The entries of the buffer that one node gives. `stale` is the word of the local `data` that nothing
-- sets.
unfoldable pub entries_of : Header → (stale : ℕ) → VhcallData → List VhcallData
entries_of hd stale d = elim d.cl [
  | class_cdb ↦
      record { val0 = d.val0; val1 = stale; inout = hd.intent_in; size = 8; cl = class_dbl }
      ∷ record { val0 = d.val1; val1 = stale; inout = hd.intent_in; size = 8; cl = class_dbl }
      ∷ []
  | class_int ↦ d ∷ []
  | class_dbl ↦ d ∷ []
  | class_ptr ↦ d ∷ []
  | class_hdl ↦ d ∷ []
]

-- How the first loop of `vhcall_invoke_with_args` ends: the nodes from there on, and `insize` in entries.
pub data Walked : Type 0 where
  stopped : ℕ → List Node → Walked
  walked : List Node → ℕ → Walked

-- The entries counted for one node.
unfoldable pub entries_counted : ArgsClass → ℕ
entries_counted class_cdb = 2
entries_counted class_int = 1
entries_counted class_dbl = 1
entries_counted class_ptr = 1
entries_counted class_hdl = 1

unfoldable pub counted : Node → Walked → Walked
counted a (stopped err nodes) = stopped err (a ∷ nodes)
counted a (walked nodes n) = walked (a ∷ nodes) (entries_counted a.data_of.cl + n)

-- The nodes behind number `k - 1` once a missing `k` is there, when there are to be `args_num` of them.
unfoldable pub close_gap : Header → Bool → (args_num k : ℕ) → List Node → Option (List Node)
close_gap hd memory args_num k [] =
    if ltb k args_num then (if memory then some (zero_u64 hd k ∷ []) else none) else some []
close_gap hd memory args_num k (a ∷ xs) =
    if k == a.num then some (a ∷ xs) else (if memory then some (zero_u64 hd k ∷ a ∷ xs) else none)

-- What follows in the loop's body, `next` being the rounds to come.
unfoldable pub onward : (ℕ → List Node → Walked) → List Node → Option (List Node) → Walked
onward next nodes none = stopped enomem nodes
onward next nodes (some []) = walked [] 0
onward next nodes (some (a ∷ xs)) = counted a (next (suc a.num) xs)

-- The loop from the node with number `k - 1` on, for a list with a fixed `args_num`.
-- `memory k` is whether `calloc` succeeds for node `k`.
unfoldable pub walk : Header → (ℕ → Bool) → (args_num : ℕ) → (fuel k : ℕ) → List Node → Walked
walk hd memory args_num zero k nodes = stopped 0 nodes
walk hd memory args_num (suc fuel) k nodes =
    let rest =
      onward (walk hd memory args_num fuel) nodes (close_gap hd (memory k) args_num k nodes) in
    if ltb args_num k then stopped einval nodes else rest

-- The loop for a list without a fixed number: the numbers must be 0, 1, 2, ...
unfoldable pub walk_free : ℕ → List Node → Walked
walk_free k [] = walked [] 0
walk_free k (a ∷ xs) =
    let rest = counted a (walk_free (suc a.num) xs) in
    if k == a.num then rest else stopped einval (a ∷ xs)

-- The loop that fills the buffer.
unfoldable pub emit : Header → ℕ → List Node → List VhcallData
emit hd stale [] = []
emit hd stale (a ∷ xs) = entries_of hd stale a.data_of ++ emit hd stale xs

-- What `vhcall_invoke_with_args` comes to: -1 with errno and the list so far, or the system call with
-- `inptr` and `insize`.
pub data Invoke : Type 0 where
  refused : ℕ → List Node → Invoke
  sent : List VhcallData → ℕ → List Node → Invoke

-- After the first loop; `memory` is whether `calloc(1, insize)` succeeds.
unfoldable pub packed : Header → (memory : Bool) → (stale : ℕ) → Walked → Invoke
packed hd memory stale (stopped err nodes) = refused err nodes
packed hd memory stale (walked nodes zero) = sent (emit hd stale nodes) 0 nodes
packed hd memory stale (walked nodes (suc n)) =
    if memory
    then sent (emit hd stale nodes) (suc n * hd.sizeof_data) nodes
    else refused enomem nodes

-- The first loop, for either kind of list.
unfoldable pub first_loop : Header → (ℕ → Bool) → Option ℕ → List Node → Walked
first_loop hd memory none nodes = walk_free 0 nodes
first_loop hd memory (some n) nodes = walk hd memory n (n + 2) 0 nodes

unfoldable pub invoke_with_args :
    Header → (ℕ → Bool) → (memory : Bool) → (stale : ℕ) → Option VhcallArgs → Invoke
invoke_with_args hd node_memory memory stale none = refused einval []
invoke_with_args hd node_memory memory stale (some args) =
    packed hd memory stale (first_loop hd node_memory args.args_num args.nodes)

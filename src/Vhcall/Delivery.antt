-- ===== src/Vhcall/Delivery.antt =====
-- From a setter of src/libvhcall.c to the buffer of vhcall_invoke_with_args.
use libsysve.Prelude.{
  ℕ, suc, ◌+◌, ◌*◌, ◌≤◌, ◌<◌, ◌%◌, ◌/◌, ◌^◌, ◌≡◌, refl, Bool, true, false, ◌==◌, ltb, ◌||◌, List,
  [], ◌∷◌, ◌++◌, Option, some, arith, ◌∙◌, ap, sym,
}
use mathlib.Core.List.{append_assoc}
use libsysve.Prelude.Int.{pos}
use libsysve.Vhcall.{
  ArgsClass, VhcallData, Node, VhcallArgs, Header, Value, behind, args_append, store, class_dbl,
  class_cdb, write_data, Status, ok, set_node, args_set, emit, entries_of, low_bytes,
}
use libsysve.Vhcall.Args.{From}
use libsysve.Vhcall.Setters.{
  args_set_float, args_set_double, args_set_complex_float, args_set_complex_double,
}

From-later :
    (lo : ℕ) (xs : List Node) (a : Node) (ys : List Node) → From lo (xs ++ a ∷ ys) → lo ≤ a.num
From-later lo [] a ys (le, ord) = le
From-later lo (x ∷ xs) a ys (le, ord) =
    let later : suc x.num ≤ a.num = From-later (suc x.num) xs a ys ord in omega (arith, later, le)

args_append-there :
    (hd : Header) (memory : Bool) (lo : ℕ) (xs : List Node) (a : Node) (ys : List Node)
    → From lo (xs ++ a ∷ ys)
    → args_append hd memory (xs ++ a ∷ ys) a.num ≡ some (xs ++ a ∷ ys)
unfolding args_append behind
args_append-there hd memory lo [] a ys ord = ground arith
args_append-there hd memory lo (x ∷ xs) a ys (le, ord) =
    let before : ltb x.num a.num ≡ true = ground (arith, From-later (suc x.num) xs a ys ord) in
    rw before (ap (behind x) (args_append-there hd memory (suc x.num) xs a ys ord))

store-there :
    (lo : ℕ) (f : VhcallData → VhcallData) (xs : List Node) (a : Node) (ys : List Node)
    → From lo (xs ++ a ∷ ys)
    → store a.num f (xs ++ a ∷ ys) ≡ xs ++ record a { data_of = f a.data_of } ∷ ys
unfolding store
store-there lo f [] a ys ord = ground arith
store-there lo f (x ∷ xs) a ys (le, ord) =
    let before : (x.num == a.num) ≡ false = ground (arith, From-later (suc x.num) xs a ys ord) in
    rw before (ap (λ l. x ∷ l) (store-there (suc x.num) f xs a ys ord))

emit-++ :
    (hd : Header) (stale : ℕ) (xs ys : List Node)
    → emit hd stale (xs ++ ys) ≡ emit hd stale xs ++ emit hd stale ys
unfolding emit
emit-++ hd stale [] ys = refl
emit-++ hd stale (x ∷ xs) ys =
    ap (λ l. entries_of hd stale x.data_of ++ l) (emit-++ hd stale xs ys)
    ∙ sym (append_assoc (entries_of hd stale x.data_of) (emit hd stale xs) (emit hd stale ys))

-- The entry of a number of `size` bytes.
abbrev pub number : Header → (size val0 val1 : ℕ) → VhcallData
number hd size val0 val1 = record {
  val0 = val0;
  val1 = val1;
  inout = hd.intent_in;
  size = size;
  cl = class_dbl;
}

module _ (hd : Header) (memory : Bool) (stale : ℕ) (args_num : Option ℕ) (xs : List Node) (a : Node)
    (ys : List Node) (ord : From 0 (xs ++ a ∷ ys)) where
  -- The list with the node between the others, and data `d` in it.
  abbrev pub with_data : VhcallData → VhcallArgs
  with_data d = record {
    args_num = args_num;
    nodes = xs ++ record { num = a.num; data_of = d } ∷ ys;
  }

  args_set-with_data :
      (inout : ℕ) (bytes : ℕ → ℕ → Value) (size : ℕ) (cl : ArgsClass)
      → hd.intent_in ≤ inout
      → inout ≤ hd.intent_out
      → args_set hd memory (with_data a.data_of) inout (pos a.num) bytes size cl
        ≡ (ok, with_data (write_data inout size cl bytes a.data_of))
  unfolding args_set set_node
  args_set-with_data inout bytes size cl low high =
      let valid : (ltb inout hd.intent_in || ltb hd.intent_out inout) ≡ false = ground arith in
      rw valid (
        rw (args_append-there hd memory 0 xs a ys ord) (
          ap (λ l. (ok, record { args_num = args_num; nodes = l }))
            (store-there 0 (write_data inout size cl bytes) xs a ys ord)))

  -- The buffer: what the other arguments give, and `entries` in between.
  abbrev pub Delivers : List VhcallData → Status × VhcallArgs → Type 0
  Delivers entries out =
      (out.0 ≡ ok) × (emit hd stale out.1.nodes ≡ emit hd stale xs ++ (entries ++ emit hd stale ys))

  args_set-Delivers :
      (inout : ℕ) (bytes : ℕ → ℕ → Value) (size : ℕ) (cl : ArgsClass)
      → hd.intent_in ≤ inout
      → inout ≤ hd.intent_out
      → Delivers
          (entries_of hd stale (write_data inout size cl bytes a.data_of))
          (args_set hd memory (with_data a.data_of) inout (pos a.num) bytes size cl)
  unfolding emit
  args_set-Delivers inout bytes size cl low high =
      rw (args_set-with_data inout bytes size cl low high) (refl, emit-++ hd stale xs (_ ∷ ys))

  eight_bytes :
      (v : ℕ)
      → v < 2 ^ 64
      → a.data_of.val0 < 2 ^ 64
      → hd.intent_in ≤ hd.intent_out
      → Delivers (number hd 8 v a.data_of.val1 ∷ []) (
          args_set hd memory
            (with_data a.data_of)
            hd.intent_in
            (pos a.num)
            (low_bytes 8 v)
            8
            class_dbl)
  unfolding low_bytes write_data entries_of
  eight_bytes v word old intents =
      let same : entries_of hd stale (write_data hd.intent_in 8 class_dbl (low_bytes 8 v) a.data_of)
          ≡ number hd 8 v a.data_of.val1 ∷ [] =
        ap (λ w. number hd 8 w a.data_of.val1 ∷ []) (omega arith) in
      let (done, sent) =
        args_set-Delivers hd.intent_in (low_bytes 8 v) 8 class_dbl (omega arith) intents in
      (done, sent ∙ ap (λ l. emit hd stale xs ++ (l ++ emit hd stale ys)) same)

  -- Setting an argument that an ordered list has, to a float, a double or a complex number,
  -- changes its own entries of the buffer alone: a float its lower four bytes, a double and a
  -- complex float its eight bytes, and a complex double two entries of eight bytes, the real part
  -- first. The bit patterns have their widths, the old value is a word, and the intent of an input
  -- is a valid one.
  pub setters-Delivers :
      (v re im : ℕ)
      → v < 2 ^ 64
      → a.data_of.val0 < 2 ^ 64
      → re < 2 ^ 32
      → im < 2 ^ 32
      → hd.intent_in ≤ hd.intent_out
      → let ca = with_data a.data_of in
        let d = a.data_of in
        Delivers
          (number hd 4 (d.val0 / 2 ^ 32 * 2 ^ 32 + v % 2 ^ 32) d.val1 ∷ [])
          (args_set_float hd memory ca (pos a.num) v)
        × Delivers (number hd 8 v d.val1 ∷ []) (args_set_double hd memory ca (pos a.num) v)
        × Delivers
            (number hd 8 (re + 2 ^ 32 * im) d.val1 ∷ [])
            (args_set_complex_float hd memory ca (pos a.num) re im)
        × Delivers
            (number hd 8 re stale ∷ number hd 8 im stale ∷ [])
            (args_set_complex_double hd memory ca (pos a.num) re im)
  unfolding args_set_float args_set_double args_set_complex_float args_set_complex_double low_bytes
      write_data entries_of
  setters-Delivers v re im v_word old_word re_small im_small intents = (
    args_set-Delivers hd.intent_in (low_bytes 4 v) 4 class_dbl (omega arith) intents,
    eight_bytes v v_word old_word intents,
    eight_bytes (re + 2 ^ 32 * im) (omega arith) old_word intents,
    args_set-Delivers hd.intent_in _ 16 class_cdb (omega arith) intents,
  )

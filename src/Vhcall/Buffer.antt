-- ===== src/Vhcall/Buffer.antt =====
-- The two loops of `vhcall_invoke_with_args` in src/libvhcall.c: what the first one counts and fills in
-- is what the second one writes.
use libsysve.Prelude.{
  ℕ, zero, suc, ◌+◌, ◌≤◌, ◌<◌, ◌≡◌, refl, Bool, true, false, ◌==◌, ltb, if◌then◌else◌, List, [],
  ◌∷◌, ◌++◌, Option, none, some, arith, Bool-cases, inl, inr, ◌∙◌, ◌⊎◌, ap, sym,
}
use libsysve.Vhcall.{
  ArgsClass, class_int, class_dbl, class_cdb, class_ptr, class_hdl, VhcallData, Node, Header,
  einval, enomem, zero_u64, close_gap, onward, walk, entries_of, entries_counted, counted, Walked,
  walked, stopped, walk_free, emit,
}

abbrev pub many : {A : Type 0} → List A → ℕ
many [] = 0
many (x ∷ xs) = suc (many xs)

many-++ : {A : Type 0} (xs ys : List A) → many (xs ++ ys) ≡ many xs + many ys
many-++ [] ys = ground arith
many-++ (x ∷ xs) ys = ground (arith, many-++ xs ys)

entries_of-counted :
    (hd : Header) (stale : ℕ) (d : VhcallData) (cl : ArgsClass)
    → d.cl ≡ cl
    → many (entries_of hd stale d) ≡ entries_counted cl
unfolding entries_of entries_counted
entries_of-counted hd stale d class_int e = rw e refl
entries_of-counted hd stale d class_dbl e = rw e refl
entries_of-counted hd stale d class_cdb e = rw e refl
entries_of-counted hd stale d class_ptr e = rw e refl
entries_of-counted hd stale d class_hdl e = rw e refl

-- The nodes have the numbers k, k + 1, ...
abbrev pub Row : ℕ → List Node → Type 0
Row k [] = Unit {0}
Row k (a ∷ xs) = (a.num ≡ k) × Row (suc k) xs

-- The buffer has room for exactly what is written, the numbers leave no gap, and an error has an errno.
abbrev pub Fits : Header → (stale k : ℕ) → (List Node → Type 0) → Walked → Type 0
Fits hd stale k Whole (stopped err nodes) = (err ≡ einval) ⊎ (err ≡ enomem)
Fits hd stale k Whole (walked nodes n) =
    (many (emit hd stale nodes) ≡ n) × Row k nodes × Whole nodes

counted-Fits :
    (hd : Header) (stale k : ℕ) (Whole Whole' : List Node → Type 0) (a : Node) (out : Walked)
    → a.num ≡ k
    → ((xs : List Node) → Whole xs → Whole' (a ∷ xs))
    → Fits hd stale (suc k) Whole out
    → Fits hd stale k Whole' (counted a out)
unfolding counted emit
counted-Fits hd stale k Whole Whole' a (stopped err nodes) num more fits = fits
counted-Fits hd stale k Whole Whole' a (walked nodes n) num more (size, row, whole) = (
  many-++ (entries_of hd stale a.data_of) (emit hd stale nodes)
      ∙ ground (arith, size, entries_of-counted hd stale a.data_of a.data_of.cl refl),
  (num, row),
  more nodes whole,
)

-- For a list without a fixed number of arguments the first loop of vhcall_invoke_with_args ends
-- with EINVAL or ENOMEM, or keeps the nodes' count with numbers in a row, and the buffer has
-- exactly the size that the second loop fills.
pub walk_free-Fits :
    (hd : Header) (stale k : ℕ) (nodes : List Node)
    → Fits hd stale k (λ xs. many xs ≡ many nodes) (walk_free k nodes)
unfolding walk_free emit
walk_free-Fits hd stale k [] = (refl, tt, refl)
walk_free-Fits hd stale k (a ∷ xs) = elim (Bool-cases (k == a.num)) [
  | inl e ↦ rw e (
      counted-Fits hd stale k (λ ys. many ys ≡ many xs) (λ ys. many ys ≡ suc (many xs)) a
        (walk_free (suc a.num) xs) (ground arith) (λ ys same. ap suc same)
        (rw (sym (next_num (ground arith))) (walk_free-Fits hd stale (suc a.num) xs)))
  | inr e ↦ rw e (inl refl)
]
  where
    next_num : k ≡ a.num → suc a.num ≡ suc k
    next_num e = omega arith

-- The first node once the gap is closed; without one, all `args_num` are there.
abbrev Starts : (args_num k : ℕ) → Option (List Node) → Type 0
Starts args_num k none = Unit {0}
Starts args_num k (some []) = args_num ≤ k
Starts args_num k (some (a ∷ xs)) = a.num ≡ k

close_gap-Starts :
    (hd : Header) (memory : Bool) (args_num k : ℕ) (nodes : List Node)
    → Starts args_num k (close_gap hd memory args_num k nodes)
unfolding close_gap zero_u64
close_gap-Starts hd memory args_num k [] = elim (Bool-cases (ltb k args_num)) [
  | inl e ↦ rw e (added memory)
  | inr e ↦ rw e (ground arith)
]
  where
    added : (memory : Bool) → Starts args_num k (if memory then some (zero_u64 hd k ∷ []) else none)
    added false = tt
    added true = refl
close_gap-Starts hd memory args_num k (a ∷ xs) = elim (Bool-cases (k == a.num)) [
  | inl e ↦ rw e (ground arith)
  | inr e ↦ rw e (added memory)
]
  where
    added :
        (memory : Bool) → Starts args_num k (if memory then some (zero_u64 hd k ∷ a ∷ xs) else none)
    added false = tt
    added true = refl

onward-Fits :
    (hd : Header) (stale args_num k : ℕ) (next : ℕ → List Node → Walked) (nodes : List Node)
    (out : Option (List Node))
    → k ≤ args_num
    → Starts args_num k out
    → ((xs : List Node)
        → Fits hd stale (suc k) (λ ys. many ys + suc k ≡ args_num) (next (suc k) xs))
    → Fits hd stale k (λ ys. many ys + k ≡ args_num) (onward next nodes out)
unfolding onward emit
onward-Fits hd stale args_num k next nodes none le starts rest = inr refl
onward-Fits hd stale args_num k next nodes (some []) le starts rest = (refl, tt, omega arith)
onward-Fits hd stale args_num k next nodes (some (a ∷ xs)) le starts rest =
    counted-Fits hd stale k (λ ys. many ys + suc k ≡ args_num) (λ ys. many ys + k ≡ args_num) a
      (next (suc a.num) xs) starts (λ ys same. omega arith) (rw starts (rest xs))

-- For a list with a fixed number of arguments the first loop of vhcall_invoke_with_args ends
-- within that number and two more rounds: with EINVAL or ENOMEM; or with the numbers in a row from
-- the start and as many as asked for, and a buffer of exactly the size that the second loop fills.
-- The start is at most one past the number, and the fuel is enough.
pub walk-Fits :
    (hd : Header) (memory : ℕ → Bool) (stale args_num fuel k : ℕ) (nodes : List Node)
    → suc args_num < fuel + k
    → k ≤ suc args_num
    → Fits hd stale k (λ ys. many ys + k ≡ args_num) (walk hd memory args_num fuel k nodes)
unfolding walk
walk-Fits hd memory stale args_num zero k nodes lt le = absurd (omega arith)
walk-Fits hd memory stale args_num (suc fuel) k nodes lt le = elim (Bool-cases (ltb args_num k)) [
  | inl e ↦ rw e (inl refl)
  | inr e ↦ rw e (
      onward-Fits hd stale args_num k (walk hd memory args_num fuel) nodes _ (ground arith)
        (close_gap-Starts hd (memory k) args_num k nodes)
        (λ xs. walk-Fits hd memory stale args_num fuel (suc k) xs (omega arith) (ground arith)))
]

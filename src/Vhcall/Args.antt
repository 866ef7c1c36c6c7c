-- ===== src/Vhcall/Args.antt =====
-- The argument list of src/libvhcall.c: its order, and what it holds.
use libsysve.Prelude.{
  ℕ, suc, ◌+◌, ◌*◌, ◌/◌, ◌%◌, ◌^◌, ◌≤◌, ◌<◌, ◌≡◌, ◌≢◌, refl, Bool, true, false, ◌==◌, ltb,
  if◌then◌else◌, ◌||◌, List, [], ◌∷◌, Option, none, some, arith, Bool-cases, inl, inr, ◌∙◌, ap,
}
use libsysve.Prelude.Int.{pos}
use libsysve.Vhcall.{
  ArgsClass, class_int, class_ptr, class_hdl, low_bytes, args_set_pointer, args_set_int,
  args_set_veoshandle, VhcallData, Node, VhcallArgs, Header, Value, fresh, behind, args_append,
  store, write_data, Status, einval, enomem, ok, error, set_node, args_set, find,
}

-- The numbers are in strictly increasing order, from `lo` on.
abbrev pub From : ℕ → List Node → Type 0
From lo [] = Unit {0}
From lo (a ∷ xs) = (lo ≤ a.num) × From (suc a.num) xs

-- The data that a setter starts from: the argument's, or zeroes.
abbrev pub held : Header → ℕ → Option VhcallData → VhcallData
held hd n none = (fresh hd n).data_of
held hd n (some d) = d

find-below : (lo n : ℕ) (xs : List Node) → From lo xs → n < lo → find n xs ≡ none
unfolding find
find-below lo n [] ord lt = refl
find-below lo n (a ∷ xs) (le, ord) lt =
    ground (arith, find-below (suc a.num) n xs ord (omega arith))

-- Whether there is a place for the argument: it is in the list already, or there is memory for it.
abbrev pub room : Bool → Option VhcallData → Bool
room memory none = memory
room memory (some d) = true

-- What the list is after a node for `n` was asked for.
abbrev Asked : Header → Bool → (lo n : ℕ) → List Node → Option (List Node) → Type 0
Asked hd memory lo n xs none = room memory (find n xs) ≡ false
Asked hd memory lo n xs (some ys) =
    (room memory (find n xs) ≡ true)
    × From lo ys
    × ((m : ℕ) → m ≢ n → find m ys ≡ find m xs)
    × (find n ys ≡ some (held hd n (find n xs)))

behind-Asked :
    (hd : Header) (memory : Bool) (lo n : ℕ) (a : Node) (xs : List Node) (out : Option (List Node))
    → lo ≤ a.num
    → a.num < n
    → Asked hd memory (suc a.num) n xs out
    → Asked hd memory lo n (a ∷ xs) (behind a out)
unfolding behind find
behind-Asked hd memory lo n a xs none le lt full = ground (arith, full)
behind-Asked hd memory lo n a xs (some ys) le lt (place, ord, same, there) =
    (ground (arith, place), (le, ord), λ m ne. ground (arith, same m ne), ground (arith, there))

args_append-Asked :
    (hd : Header) (memory : Bool) (lo n : ℕ) (xs : List Node)
    → lo ≤ n
    → From lo xs
    → Asked hd memory lo n xs (args_append hd memory xs n)
unfolding args_append find fresh
args_append-Asked hd false lo n [] le ord = refl
args_append-Asked hd true lo n [] le ord = (refl, (le, tt), λ m ne. ground arith, ground arith)
args_append-Asked hd memory lo n (a ∷ xs) le (a_le, ord) = elim (Bool-cases (ltb a.num n)) [
  | inl e ↦ rw e (
      behind-Asked hd memory lo n a xs (args_append hd memory xs n) a_le (ground arith)
        (args_append-Asked hd memory (suc a.num) n xs (ground arith) ord))
  | inr e ↦ rw e (elim (Bool-cases (a.num == n)) [
    | inl same ↦ rw same (ground (arith, same), (a_le, ord), λ m ne. refl, ground arith)
    | inr other ↦ rw other (inserted memory (ground arith))
  ])
]
  where
    inserted :
        (memory : Bool)
        → n < a.num
        → Asked hd memory lo n (a ∷ xs) (if memory then some (fresh hd n ∷ a ∷ xs) else none)
    inserted false lt = rw (find-below (suc a.num) n xs ord (omega arith)) (ground arith)
    inserted true lt = (
      rw (find-below (suc a.num) n xs ord (omega arith)) (ground arith),
      (le, (lt, ord)),
      λ m ne. ground arith,
      rw (find-below (suc a.num) n xs ord (omega arith)) (ground arith),
    )

store-From :
    (n lo : ℕ) (f : VhcallData → VhcallData) (xs : List Node) → From lo xs → From lo (store n f xs)
unfolding store
store-From n lo f [] ord = tt
store-From n lo f (a ∷ xs) (le, ord) = elim (Bool-cases (a.num == n)) [
  | inl e ↦ rw e (le, ord)
  | inr e ↦ rw e (le, store-From n (suc a.num) f xs ord)
]

find-store_other :
    (n m : ℕ) (f : VhcallData → VhcallData) (xs : List Node)
    → m ≢ n
    → find m (store n f xs) ≡ find m xs
unfolding store find
find-store_other n m f [] ne = refl
find-store_other n m f (a ∷ xs) ne = ground (arith, find-store_other n m f xs ne)

abbrev pub changed : (VhcallData → VhcallData) → Option VhcallData → Option VhcallData
changed f none = none
changed f (some d) = some (f d)

find-store :
    (n : ℕ) (f : VhcallData → VhcallData) (xs : List Node)
    → find n (store n f xs) ≡ changed f (find n xs)
unfolding store find
find-store n f [] = refl
find-store n f (a ∷ xs) = elim (Bool-cases (a.num == n)) [
  | inl e ↦ ground arith
  | inr e ↦ ground (arith, find-store n f xs)
]

-- The status that the arguments of a setter and the list call for.
abbrev pub verdict : Header → Bool → (inout : ℕ) → Option VhcallData → Status
verdict hd memory inout there =
    if ltb inout hd.intent_in || ltb hd.intent_out inout
    then error einval
    else (if room memory there then ok else error enomem)

-- An error leaves everything; else argument `n` is the one that changed, and the order is kept.
abbrev pub Done : VhcallArgs → ℕ → VhcallData → Status × VhcallArgs → Type 0
Done before n d (error err, ca) = ca ≡ before
Done before n d (ok, ca) =
    (ca.args_num ≡ before.args_num)
    × From 0 ca.nodes
    × ((m : ℕ) → m ≢ n → find m ca.nodes ≡ find m before.nodes)
    × (find n ca.nodes ≡ some d)

abbrev pub Written :
    Header → Bool → VhcallArgs → (inout n : ℕ) → VhcallData → Status × VhcallArgs → Type 0
Written hd memory before inout n d out =
    (out.0 ≡ verdict hd memory inout (find n before.nodes)) × Done before n d out

set_node-Done :
    (hd : Header) (memory : Bool) (ca : VhcallArgs) (n : ℕ) (f : VhcallData → VhcallData)
    (out : Option (List Node))
    → Asked hd memory 0 n ca.nodes out
    → ((set_node ca n f out).0 ≡ (if room memory (find n ca.nodes) then ok else error enomem))
      × Done ca n (f (held hd n (find n ca.nodes))) (set_node ca n f out)
unfolding set_node
set_node-Done hd memory ca n f none full = (rw full refl, refl)
set_node-Done hd memory ca n f (some ys) (place, ord, same, there) = (
  rw place refl,
  (
    refl,
    store-From n 0 f ys ord,
    (λ m ne. find-store_other n m f ys ne ∙ same m ne),
    find-store n f ys ∙ ap (changed f) there,
  ),
)

args_set-write_data :
    (hd : Header) (memory : Bool) (ca : VhcallArgs) (inout n : ℕ) (bytes : ℕ → ℕ → Value) (size : ℕ)
    (cl : ArgsClass)
    → From 0 ca.nodes
    → Written hd memory ca inout n
        (write_data inout size cl bytes (held hd n (find n ca.nodes)))
        (args_set hd memory ca inout (pos n) bytes size cl)
unfolding args_set
args_set-write_data hd memory ca inout n bytes size cl ord =
    elim (Bool-cases (ltb inout hd.intent_in || ltb hd.intent_out inout)) [
      | inl e ↦ rw e (refl, refl)
      | inr e ↦ rw e (
          set_node-Done hd memory ca n (write_data inout size cl bytes) _
            (args_append-Asked hd memory 0 n ca.nodes (omega arith) ord))
    ]

-- Setting an argument of an ordered list, whose number is not negative, fails with EINVAL just
-- where the intent is out of range, and else with ENOMEM just where the list has no such argument
-- and there is no memory for one; a failure changes nothing. Otherwise the argument has the value,
-- intent, size and class that are given, and every other argument and the order stay. A pointer,
-- an integer of any width and a VEOS handle are set with their own value, intent, size and class.
pub args_set-Written :
    (hd : Header) (memory : Bool) (ca : VhcallArgs) (inout n : ℕ) (bytes : ℕ → ℕ → Value) (size : ℕ)
    (cl : ArgsClass) (width v buff len : ℕ)
    → From 0 ca.nodes
    → let old = held hd n (find n ca.nodes) in
      Written hd memory ca inout n
        (record {
          val0 = (bytes old.val0 old.val1).word0;
          val1 = (bytes old.val0 old.val1).word1;
          inout = inout;
          size = size;
          cl = cl;
        })
        (args_set hd memory ca inout (pos n) bytes size cl)
      × Written hd memory ca inout n
          (record { val0 = buff; val1 = old.val1; inout = inout; size = len; cl = class_ptr })
          (args_set_pointer hd memory ca inout (pos n) buff len)
      × Written hd memory ca hd.intent_in n
          (record {
            val0 = old.val0 / 2 ^ (8 * width) * 2 ^ (8 * width) + v % 2 ^ (8 * width);
            val1 = old.val1;
            inout = hd.intent_in;
            size = width;
            cl = class_int;
          })
          (args_set_int width hd memory ca (pos n) v)
      × Written hd memory ca hd.intent_in n
          (record {
            val0 = old.val0;
            val1 = old.val1;
            inout = hd.intent_in;
            size = 0;
            cl = class_hdl;
          })
          (args_set_veoshandle hd memory ca (pos n))
unfolding write_data low_bytes args_set_pointer args_set_int args_set_veoshandle
args_set-Written hd memory ca inout n bytes size cl width v buff len ord = (
  args_set-write_data hd memory ca inout n bytes size cl ord,
  args_set-write_data hd memory ca inout n _ len class_ptr ord,
  args_set-write_data hd memory ca hd.intent_in n (low_bytes width v) width class_int ord,
  args_set-write_data hd memory ca hd.intent_in n _ 0 class_hdl ord,
)

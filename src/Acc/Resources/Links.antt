-- ===== src/Acc/Resources/Links.antt =====
-- The doubly linked list of all threads' buffers in src/accelerated_io.c.
use libsysve.Prelude.{ℕ, ◌≡◌, ◌≢◌, List, [], ◌∷◌, ◌++◌, arith, sym, ◌∙◌}
use libsysve.Acc.Process.{AccIoResources}
use libsysve.Acc.Resources.{link_first, unlink}

-- `a` differs from each of the nodes.
abbrev pub Apart : ℕ → List ℕ → Type 0
Apart a [] = Unit {0}
Apart a (x ∷ xs) = (a ≢ x) × Apart a xs

abbrev pub Distinct : List ℕ → Type 0
Distinct [] = Unit {0}
Distinct (x ∷ xs) = Apart x xs × Distinct xs

-- From node `a` on the list goes through `xs`, and each `prev` leads back.
abbrev pub Linked : (ℕ → AccIoResources) → ℕ → List ℕ → Type 0
Linked h a [] = (h a).next ≡ 0
Linked h a (x ∷ xs) = ((h a).next ≡ x) × (x ≢ 0) × ((h x).prev ≡ a) × Linked h x xs

abbrev pub Agree : (ℕ → AccIoResources) → (ℕ → AccIoResources) → List ℕ → Type 0
Agree g h [] = Unit {0}
Agree g h (x ∷ xs) = ((g x).next ≡ (h x).next) × ((g x).prev ≡ (h x).prev) × Agree g h xs

pub frame-Linked :
    (g h : ℕ → AccIoResources) (a : ℕ) (xs : List ℕ)
    → (g a).next ≡ (h a).next
    → Agree g h xs
    → Linked h a xs
    → Linked g a xs
frame-Linked g h a [] same agree linked = ground arith
frame-Linked g h a (x ∷ xs) same (n, p, agree) (eq, nz, back, linked) =
    (ground arith, nz, ground arith, frame-Linked g h x xs n agree linked)

link_first-Agree :
    (h : ℕ → AccIoResources) (head a x : ℕ) (xs : List ℕ)
    → a ≢ head
    → (h head).next ≡ x
    → Apart a xs
    → Apart head xs
    → Apart x xs
    → Agree (link_first head a h) h xs
unfolding link_first
link_first-Agree h head a x [] ne eq p q r = tt
link_first-Agree h head a x (y ∷ ys) ne eq (ay, p) (hy, q) (xy, r) =
    (ground arith, ground arith, link_first-Agree h head a x ys ne eq p q r)

-- A new node, not NULL and distinct from the nodes of a well-linked list, joins behind the head,
-- and the list is well linked both ways.
pub link_first-Linked :
    (h : ℕ → AccIoResources) (head a : ℕ) (xs : List ℕ)
    → Linked h head xs
    → Distinct (a ∷ head ∷ xs)
    → a ≢ 0
    → Linked (link_first head a h) head (a ∷ xs)
unfolding link_first
link_first-Linked h head a [] linked ((ne, _), _) nz =
    (ground arith, nz, ground arith, ground arith)
link_first-Linked h head a (x ∷ xs) (eq, x_nz, back, linked)
      ((ne, (ax, apart)), ((hx, h_apart), (x_apart, d))) nz =
    (
      ground arith,
      nz,
      ground arith,
      (
        ground arith,
        x_nz,
        ground arith,
        frame-Linked (link_first head a h) h x xs (ground arith)
            (link_first-Agree h head a x xs ne eq apart h_apart x_apart) linked,
      ),
    )

-- The node before `n`.
prev-Apart :
    (h : ℕ → AccIoResources) (c a n : ℕ) (xs ys : List ℕ)
    → Linked h a (xs ++ n ∷ ys)
    → Apart c (a ∷ xs ++ n ∷ ys)
    → c ≢ (h n).prev
prev-Apart h c a n [] ys (eq, nz, back, linked) (ne, apart) = ground arith
prev-Apart h c a n (x ∷ xs) ys (eq, nz, back, linked) (ne, apart) =
    prev-Apart h c x n xs ys linked apart

-- The node behind `n`.
next-Apart :
    (h : ℕ → AccIoResources) (c a n : ℕ) (xs ys : List ℕ)
    → Linked h a (xs ++ n ∷ ys)
    → Apart c (xs ++ n ∷ ys)
    → c ≢ 0
    → c ≢ (h n).next
next-Apart h c a n [] [] (eq, nz, back, linked) (ne, apart) c_nz = ground arith
next-Apart h c a n [] (y ∷ ys) (eq, nz, back, linked) (ne, apart) c_nz = ground arith
next-Apart h c a n (x ∷ xs) ys (eq, nz, back, linked) (ne, apart) c_nz =
    next-Apart h c x n xs ys linked apart c_nz

-- Away from its neighbours, `unlink` changes nothing.
unlink-next : (h : ℕ → AccIoResources) (n c : ℕ) → c ≢ (h n).prev → (unlink n h c).next ≡ (h c).next
unfolding unlink
unlink-next h n c ne = ground arith

unlink-prev :
    (h : ℕ → AccIoResources) (n c : ℕ)
    → n ≢ (h n).prev
    → c ≢ (h n).next
    → (unlink n h c).prev ≡ (h c).prev
unfolding unlink
unlink-prev h n c nn ne = ground arith

unlink-Agree :
    (h : ℕ → AccIoResources) (n : ℕ) (xs : List ℕ)
    → n ≢ (h n).prev
    → Apart (h n).prev xs
    → Apart (h n).next xs
    → Agree (unlink n h) h xs
unlink-Agree h n [] nn p q = tt
unlink-Agree h n (x ∷ xs) nn (px, p) (qx, q) = (
  unlink-next h n x (λ e. px (sym e)),
  unlink-prev h n x nn (λ e. qx (sym e)),
  unlink-Agree h n xs nn p q,
)

prev-other :
    (h : ℕ → AccIoResources) (a n : ℕ) (xs ys : List ℕ)
    → Linked h a (xs ++ n ∷ ys)
    → Distinct (a ∷ xs ++ n ∷ ys)
    → n ≢ (h n).prev
prev-other h a n [] ys (eq, nz, back, linked) ((ne, apart), d) = ground arith
prev-other h a n (x ∷ xs) ys (eq, nz, back, linked) (apart, d) = prev-other h x n xs ys linked d

unlink_first-Linked :
    (h : ℕ → AccIoResources) (a n : ℕ) (ys : List ℕ)
    → Linked h a (n ∷ ys)
    → Distinct (a ∷ n ∷ ys)
    → a ≢ 0
    → Linked (unlink n h) a ys
unfolding unlink
unlink_first-Linked h a n [] (eq, nz, back, linked) ((ne, _), _) a_nz = ground arith
unlink_first-Linked h a n (y ∷ ys) (eq, nz, back, (eq', y_nz, back', linked))
      ((ne, (ay, a_apart)), ((ny, n_apart), (y_apart, d))) a_nz =
    (
      ground arith,
      y_nz,
      ground arith,
      frame-Linked (unlink n h) h y ys (ground arith)
          (unlink-Agree h n ys (ground arith) (rw back a_apart) (rw eq' y_apart)) linked,
    )

-- Taking a node out leaves the list of the others.
pub unlink-Linked :
    (h : ℕ → AccIoResources) (a n : ℕ) (xs ys : List ℕ)
    → Linked h a (xs ++ n ∷ ys)
    → Distinct (a ∷ xs ++ n ∷ ys)
    → a ≢ 0
    → Linked (unlink n h) a (xs ++ ys)
unlink-Linked h a n [] ys linked distinct a_nz = unlink_first-Linked h a n ys linked distinct a_nz
unlink-Linked h a n (x ∷ xs) ys (eq, nz, back, linked) ((ax, a_apart), (x_apart, d)) a_nz = (
  unlink-next h n a (prev-Apart h a x n xs ys linked (ax, a_apart)) ∙ eq,
  nz,
  unlink-prev h n x (prev-other h x n xs ys linked (x_apart, d))
        (next-Apart h x x n xs ys linked x_apart nz)
      ∙ back,
  unlink-Linked h x n xs ys linked (x_apart, d) nz,
)

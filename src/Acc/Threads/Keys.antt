-- ===== src/Acc/Threads/Keys.antt =====
-- The threads' keys and the list of buffers: they are the same nodes.
use libsysve.Prelude.{
  ℕ, ◌≡◌, ◌≢◌, List, ◌∷◌, ◌++◌, ◌==◌, Bool-cases, inl, inr, arith, sym, ◌∙◌, ap, fun_ext, ◌⊎◌,
}
use mathlib.Core.Path.{subst⁻¹}
use libsysve.Acc.Resources.Links.{Apart, Distinct}
use libsysve.Acc.Threads.Members.{In, Apart-In, In-without, In-among, Distinct-Apart}

-- The nodes are exactly the keys of the threads, and no two threads have the same.
abbrev pub Keyed : List ℕ → (ℕ → ℕ) → Type 0
Keyed xs key =
    ((t : ℕ) → key t ≢ 0 → In (key t) xs)
    × ((t u : ℕ) → key t ≢ 0 → key t ≡ key u → t ≡ u)
    × ((a : ℕ) → In a xs → (t : ℕ) × (key t ≡ a) × (a ≢ 0))

-- The keys of the other threads stay.
abbrev pub Others : ℕ → (ℕ → ℕ) → (ℕ → ℕ) → Type 0
Others t f g = (u : ℕ) → u ≢ t → g u ≡ f u

same_or_other : (t u : ℕ) → (u ≡ t) ⊎ (u ≢ t)
same_or_other t u = elim (Bool-cases (u == t)) [
  | inl e ↦ inl (ground arith)
  | inr e ↦ inr (ground arith)
]

-- No thread's key changes.
pub Keyed-same :
    (xs : List ℕ) (t : ℕ) (f g : ℕ → ℕ) → Others t f g → g t ≡ f t → Keyed xs f → Keyed xs g
Keyed-same xs t f g others same keyed = subst⁻¹ (Keyed xs) (fun_ext every) keyed
  where
    every : (u : ℕ) → g u ≡ f u
    every u = elim (same_or_other t u) [ inl e ↦ rw e same | inr ne ↦ others u ne ]

module _ (t a : ℕ) (xs : List ℕ) (f g : ℕ → ℕ) (others : Others t f g) (before : f t ≡ 0)
    (after : g t ≡ a) (nz : a ≢ 0) (apart : Apart a xs) (keyed : Keyed xs f) where
  other_In : (u : ℕ) → u ≢ t → g u ≢ 0 → In (g u) xs
  other_In u ne has = subst⁻¹ (λ b. In b xs) (others u ne) (keyed.0 u (λ z. has (others u ne ∙ z)))

  join_In : (u : ℕ) → g u ≢ 0 → In (g u) (a ∷ xs)
  join_In u has = elim (same_or_other t u) [
    | inl e ↦ inl (rw e after)
    | inr ne ↦ inr (other_In u ne has)
  ]

  clash : (u : ℕ) → u ≢ t → g u ≢ a
  clash u ne e = Apart-In a (g u) xs apart (other_In u ne (λ z. nz (sym e ∙ z))) (sym e)

  at_t : (u : ℕ) → u ≡ t → g u ≡ a
  at_t u e = rw e after

  join_one : (u v : ℕ) → g u ≢ 0 → g u ≡ g v → u ≡ v
  join_one u v has e = elim (same_or_other t u) [
    | inl eu ↦ elim (same_or_other t v) [
      | inl ev ↦ eu ∙ sym ev
      | inr nv ↦ absurd (clash v nv (sym e ∙ at_t u eu))
    ]
    | inr nu ↦ elim (same_or_other t v) [
      | inl ev ↦ absurd (clash u nu (e ∙ at_t v ev))
      | inr nv ↦ keyed.1 u v (λ z. has (others u nu ∙ z)) (sym (others u nu) ∙ e ∙ others v nv)
    ]
  ]

  join_owner : (b : ℕ) → In b (a ∷ xs) → (u : ℕ) × (g u ≡ b) × (b ≢ 0)
  join_owner b (inl e) = (t, after ∙ sym e, λ z. nz (sym e ∙ z))
  join_owner b (inr there) =
      let (u, e, b_nz) = keyed.2 b there in
      (u, others u (λ same. b_nz (sym e ∙ rw same before)) ∙ e, b_nz)

  -- Thread `t`, which had none, has the new node.
  pub Keyed-join : Keyed (a ∷ xs) g
  Keyed-join = (join_In, join_one, join_owner)

module _ (t : ℕ) (ls rs : List ℕ) (f g : ℕ → ℕ) (others : Others t f g) (after : g t ≡ 0)
    (has_key : f t ≢ 0) (distinct : Distinct (ls ++ f t ∷ rs))
    (keyed : Keyed (ls ++ f t ∷ rs) f) where
  another : (u : ℕ) → g u ≢ 0 → u ≢ t
  another u has e = has (rw e after)

  part_In : (u : ℕ) → g u ≢ 0 → In (g u) (ls ++ rs)
  part_In u has =
      let ne : u ≢ t = another u has in
      let has' : f u ≢ 0 = λ z. has (others u ne ∙ z) in
      subst⁻¹ (λ b. In b (ls ++ rs)) (others u ne)
        (In-without (f t) (f u) ls rs (λ e. ne (sym (keyed.1 t u has_key e))) (keyed.0 u has'))

  part_one : (u v : ℕ) → g u ≢ 0 → g u ≡ g v → u ≡ v
  part_one u v has e =
      let nu : u ≢ t = another u has in
      let nv : v ≢ t = another v (λ z. has (e ∙ z)) in
      keyed.1 u v (λ z. has (others u nu ∙ z)) (sym (others u nu) ∙ e ∙ others v nv)

  part_owner : (b : ℕ) → In b (ls ++ rs) → (u : ℕ) × (g u ≡ b) × (b ≢ 0)
  part_owner b there =
      let (u, e, b_nz) = keyed.2 b (In-among (f t) b ls rs there) in
      let ne : u ≢ t = λ same.
        Apart-In (f t) b (ls ++ rs) (Distinct-Apart (f t) ls rs distinct) there
          (ap f (sym same) ∙ e) in
      (u, others u ne ∙ e, b_nz)

  -- Thread `t` has given up its node.
  pub Keyed-part : Keyed (ls ++ rs) g
  Keyed-part = (part_In, part_one, part_owner)

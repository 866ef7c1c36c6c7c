-- ===== src/Acc/Threads/Members.antt =====
-- Nodes of a list, and which threads they belong to.
use libsysve.Prelude.{ℕ, ◌≡◌, ◌≢◌, List, [], ◌∷◌, ◌++◌, ◌⊎◌, inl, inr, sym, ap, ◌∙◌}
use libsysve.Acc.Resources.Links.{Apart, Distinct}

abbrev pub In : ℕ → List ℕ → Type 0
In a [] = ⊥
In a (x ∷ xs) = (a ≡ x) ⊎ In a xs

pub Apart-In : (a b : ℕ) (xs : List ℕ) → Apart a xs → In b xs → a ≢ b
Apart-In a b [] apart there = absurd there
Apart-In a b (x ∷ xs) (ne, apart) (inl e) = λ same. ne (same ∙ e)
Apart-In a b (x ∷ xs) (ne, apart) (inr there) = Apart-In a b xs apart there

pub split : (a : ℕ) (xs : List ℕ) → In a xs → (ls : List ℕ) × (rs : List ℕ) × (xs ≡ ls ++ a ∷ rs)
split a [] there = absurd there
split a (x ∷ xs) (inl e) = ([], xs, ap (λ b. b ∷ xs) (sym e))
split a (x ∷ xs) (inr there) = let (ls, rs, e) = split a xs there in (x ∷ ls, rs, ap (λ l. x ∷ l) e)

pub In-without : (a b : ℕ) (ls rs : List ℕ) → a ≢ b → In b (ls ++ a ∷ rs) → In b (ls ++ rs)
In-without a b [] rs ne (inl e) = absurd (ne (sym e))
In-without a b [] rs ne (inr there) = there
In-without a b (x ∷ ls) rs ne (inl e) = inl e
In-without a b (x ∷ ls) rs ne (inr there) = inr (In-without a b ls rs ne there)

pub In-among : (a b : ℕ) (ls rs : List ℕ) → In b (ls ++ rs) → In b (ls ++ a ∷ rs)
In-among a b [] rs there = inr there
In-among a b (x ∷ ls) rs (inl e) = inl e
In-among a b (x ∷ ls) rs (inr there) = inr (In-among a b ls rs there)

pub Apart-without : (a b : ℕ) (ls rs : List ℕ) → Apart b (ls ++ a ∷ rs) → Apart b (ls ++ rs)
Apart-without a b [] rs (ne, apart) = apart
Apart-without a b (x ∷ ls) rs (ne, apart) = (ne, Apart-without a b ls rs apart)

pub Distinct-without : (a : ℕ) (ls rs : List ℕ) → Distinct (ls ++ a ∷ rs) → Distinct (ls ++ rs)
Distinct-without a [] rs (apart, distinct) = distinct
Distinct-without a (x ∷ ls) rs (apart, distinct) =
    (Apart-without a x ls rs apart, Distinct-without a ls rs distinct)

-- The node taken out differs from the others.
pub Distinct-Apart : (a : ℕ) (ls rs : List ℕ) → Distinct (ls ++ a ∷ rs) → Apart a (ls ++ rs)
Distinct-Apart a [] rs (apart, distinct) = apart
Distinct-Apart a (x ∷ ls) rs (apart, distinct) =
    ((λ e. middle x a ls rs apart (sym e)), Distinct-Apart a ls rs distinct)
  where
    middle : (x a : ℕ) (ls rs : List ℕ) → Apart x (ls ++ a ∷ rs) → x ≢ a
    middle x a [] rs (ne, apart) = ne
    middle x a (y ∷ ls) rs (ne, apart) = middle x a ls rs apart

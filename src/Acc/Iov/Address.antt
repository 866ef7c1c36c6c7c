-- ===== src/Acc/Iov/Address.antt =====
-- The bytes of an `iovec` array in their order, and the place that a loop of readv or writev has come to.
use libsysve.Prelude.{
  ℕ, zero, suc, ◌+◌, ◌-◌, ◌≤◌, ◌<◌, ◌≡◌, refl, ◌∙◌, List, [], ◌∷◌, ltb, if◌then◌else◌, arith, ap,
  sym, Bool-cases, inl, inr,
}
use libsysve.Acc.Iov.{Iovec, drop_iov, total_size, stop_place}

-- Where byte `q` of the concatenation lies.
unfoldable pub address : List Iovec → ℕ → ℕ
address [] q = 0
address (v ∷ vs) q =
    let rest = address vs (q - v.iov_len) in if ltb q v.iov_len then v.iov_base + q else rest

pub address_head :
    (v : Iovec) (vs : List Iovec) (x : ℕ) → x < v.iov_len → address (v ∷ vs) x ≡ v.iov_base + x
unfolding address
address_head v vs x lt = ground arith

-- The offset in the first element lies in it.
abbrev pub Fits : List Iovec → ℕ → Type 0
Fits [] done = done ≡ 0
Fits (v ∷ vs) done = done ≤ v.iov_len

-- The place is `q` bytes behind the start.
pub record IsAt (iov : List Iovec) (q n done : ℕ) (rest : List Iovec) : Type 0 where
  pub left : drop_iov n iov ≡ rest
  pub inside : Fits rest done
  pub total : total_size rest + q ≡ total_size iov + done
  pub same : (y : ℕ) → address rest (done + y) ≡ address iov (q + y)

drop_iov-suc :
    (n : ℕ) (iov : List Iovec) (v : Iovec) (vs : List Iovec)
    → drop_iov n iov ≡ v ∷ vs
    → drop_iov (suc n) iov ≡ vs
unfolding drop_iov
drop_iov-suc zero [] v vs h = cc
drop_iov-suc (suc n) [] v vs h = cc
drop_iov-suc zero (w ∷ ws) v vs h = cc
drop_iov-suc (suc n) (w ∷ ws) v vs h = drop_iov-suc n ws v vs h

pub IsAt-start : (iov : List Iovec) → IsAt iov 0 0 0 iov
unfolding drop_iov
IsAt-start iov = record { left = refl; inside = fits iov; total = omega arith; same = λ y. refl }
  where
    fits : (vs : List Iovec) → Fits vs 0
    fits [] = refl
    fits (v ∷ vs) = omega arith

address_behind :
    (v : Iovec) (vs : List Iovec) (y : ℕ) → address (v ∷ vs) (v.iov_len + y) ≡ address vs y
unfolding address
address_behind v vs y = ground (arith, ap (address vs) (cancel y))
  where
    cancel : (y : ℕ) → v.iov_len + y - v.iov_len ≡ y
    cancel y = omega arith

pub IsAt-next :
    (iov : List Iovec) (q n done : ℕ) (v : Iovec) (vs : List Iovec)
    → IsAt iov q n done (v ∷ vs)
    → IsAt iov (q + (v.iov_len - done)) (suc n) 0 vs
unfolding total_size
IsAt-next iov q n done v vs at = record {
  left = drop_iov-suc n iov v vs at.left;
  inside = fits vs;
  total = ground (arith, at.total, at.inside);
  same = λ y. ap (address vs) (omega arith) ∙ sym (address_behind v vs y) ∙ moved y;
}
  where
    fits : (ws : List Iovec) → Fits ws 0
    fits [] = refl
    fits (w ∷ ws) = omega arith

    before : (y : ℕ) → v.iov_len + y ≡ done + (v.iov_len - done + y)
    before y = omega (arith, at.inside)

    moved : (y : ℕ) → address (v ∷ vs) (v.iov_len + y) ≡ address iov (q + (v.iov_len - done) + y)
    moved y =
        ap (address (v ∷ vs)) (before y)
        ∙ at.same (v.iov_len - done + y)
        ∙ ap (address iov) (omega arith)

IsAt-drop :
    {iov : List Iovec} {q n done : ℕ} {rest : List Iovec}
    → IsAt iov q n done rest
    → IsAt iov q n done (drop_iov n iov)
IsAt-drop at = rw at.left at

pub IsAt-stop :
    (iov : List Iovec) (q n done size : ℕ) (v : Iovec) (vs : List Iovec)
    → IsAt iov q n done (v ∷ vs)
    → size ≤ v.iov_len - done
    → let p = stop_place n done (v.iov_len - done) size in
      IsAt iov (q + size) p.next_iov_num p.iov_len_done (drop_iov p.next_iov_num iov)
unfolding stop_place
IsAt-stop iov q n done size v vs at le = elim (Bool-cases (ltb size (v.iov_len - done))) [
  | inl less ↦ rw less (IsAt-drop (inner (ground arith)))
  | inr whole ↦ rw whole (IsAt-drop (outer (ground arith)))
]
  where
    inner : size < v.iov_len - done → IsAt iov (q + size) n (done + size) (v ∷ vs)
    inner lt = record {
      left = at.left;
      inside = omega arith;
      total = omega (arith, at.total);
      same = λ y.
          ap (address (v ∷ vs)) (omega arith) ∙ at.same (size + y) ∙ ap (address iov) (omega arith);
    }

    outer : size ≡ v.iov_len - done → IsAt iov (q + size) (suc n) 0 vs
    outer e = rw e (IsAt-next iov q n done v vs at)

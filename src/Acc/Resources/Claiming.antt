-- ===== src/Acc/Resources/Claiming.antt =====
-- What `ve_accelerated_io_pre` leaves behind, in each of its results.
use libsysve.Prelude.{
  ℕ, zero, suc, ◌≡◌, refl, Bool, true, false, ◌||◌, Option, none, some, ◌==◌, arith, Bool-cases,
  inl, inr,
}
use libsysve.Acc.Vh.{AccIoInfo}
use libsysve.Acc.Process.{Constructed, accelerated_io, pdma_io, Process, Init2, World}
use libsysve.Acc.Resources.{
  Claim, success, fail, nobuf, asks_pdma, atfork_prepare, atfork_parent, chk_env_init_dma,
  release_resource, error_unlock_ve, claimed, publish, initialised, allocated, first_request, own,
  pre, swapped, unless_pdma,
}

module _ {K : Type 0} (w : World K) where
  -- The parts of the state that `ve_accelerated_io_pre` leaves or gives back.
  abbrev pub Kept : Process K → Process K → Type 0
  Kept p q =
      (q.sigmask ≡ p.sigmask)
      × (q.constructor_result ≡ p.constructor_result)
      × (q.hooks ≡ p.hooks)
      × (p.list_locked ≡ false → q.list_locked ≡ false)

  -- A success has the flag; a failure leaves the flag, errno and the thread's key.
  abbrev pub Ends : Process K → ℕ → Bool → Claim → Process K → Type 0
  Ends p errno flag (success io) q = q.ve_buff_using_flag ≡ true
  Ends p errno flag fail q = (q.ve_buff_using_flag ≡ flag) × (q.errno ≡ errno) × (q.key ≡ p.key)
  Ends p errno flag nobuf q = (q.ve_buff_using_flag ≡ flag) × (q.errno ≡ errno) × (q.key ≡ p.key)

  abbrev pub Settles : Process K → ℕ → Bool → Claim × Process K → Type 0
  Settles p errno flag out = Kept p out.1 × Ends p errno flag out.0 out.1

  -- The owner of the flag, before anything has failed.
  abbrev Owns : Process K → Process K → Type 0
  Owns p q = Kept p q × (q.ve_buff_using_flag ≡ true) × (q.key ≡ p.key)

  give_up-Settles :
      (p q : Process K) (errno : ℕ)
      → Owns p q
      → Settles p errno false (error_unlock_ve w errno fail q)
  unfolding error_unlock_ve
  give_up-Settles p q errno (k, a, b) = (k, (refl, refl, b))

  publish-Settles :
      (p : Process K) (errno a : ℕ) (ok : Bool) (q : Process K)
      → Owns p q
      → Settles p errno false (publish w errno a (ok, q))
  unfolding publish error_unlock_ve release_resource atfork_prepare atfork_parent claimed
  publish-Settles p errno a false q (k, x, y) = (k, (refl, refl, y))
  publish-Settles p errno a true q (k, x, y) = ((k.0, k.1, k.2, λ h. refl), x)

  initialised-Settles :
      (p : Process K) (errno a : ℕ) (r : Option Init2) (q : Process K)
      → Owns p q
      → Settles p errno false (initialised w errno a (r, q))
  unfolding initialised error_unlock_ve
  initialised-Settles p errno a none q (k, x, y) = (k, (refl, refl, y))
  initialised-Settles p errno a (some r) q (k, x, y) = publish-Settles p errno a _ _ (k, x, y)

  allocated-Settles :
      (p : Process K) (errno a : ℕ) (q : Process K)
      → Owns p q
      → Settles p errno false (allocated w errno (a, q))
  unfolding allocated
  allocated-Settles p errno zero q o = give_up-Settles p q errno o
  allocated-Settles p errno (suc b) q (k, x, y) = initialised-Settles p errno (suc b) _ _ (k, x, y)

  first_request-Settles :
      (p : Process K) (errno : ℕ) (c : Constructed) (q : Process K)
      → Owns p q
      → Settles p errno false (first_request w errno (c, q))
  unfolding first_request
  first_request-Settles p errno pdma_io q o = give_up-Settles p q errno o
  first_request-Settles p errno accelerated_io q (k, x, y) = allocated-Settles p errno _ _ (k, x, y)

  chk_env_init_dma-Owns : (p q : Process K) → Owns p q → Owns p (chk_env_init_dma w q).1
  unfolding chk_env_init_dma
  chk_env_init_dma-Owns p q (k, x, y) =
      elim (Bool-cases (asks_pdma (w.setting_pdma q.sys) || asks_pdma (w.setting_atomic q.sys))) [
        | inl e ↦ rw e (k, x, y)
        | inr e ↦ rw e (k, x, y)
      ]

  own-Settles : (p q : Process K) → Owns p q → Settles p q.errno false (own w q)
  unfolding own claimed
  own-Settles p q (k, x, y) = elim (Bool-cases (q.key == 0)) [
    | inl e ↦ rw e (first_request-Settles p q.errno _ _ (chk_env_init_dma-Owns p q (k, x, y)))
    | inr e ↦ rw e (k, x)
  ]

  swapped-Settles :
      (p : Process K) (taken : Bool)
      → let out = swapped w taken (record p { ve_buff_using_flag = true }) in
        Settles p p.errno taken out × ((io : AccIoInfo) → out.0 ≡ success io → taken ≡ false)
  unfolding swapped
  swapped-Settles p true =
      (((refl, refl, refl, λ h. h), (refl, refl, refl)), λ io h. absurd (ground (arith, h)))
  swapped-Settles p false = (
    own-Settles p (record p { ve_buff_using_flag = true }) ((refl, refl, refl, λ h. h), refl, refl),
    λ io h. refl,
  )

  unless_pdma-Settles :
      (p : Process K) (c : Constructed)
      → let out = unless_pdma w c p in
        Settles p p.errno p.ve_buff_using_flag out
        × ((io : AccIoInfo) → out.0 ≡ success io → p.ve_buff_using_flag ≡ false)
  unfolding unless_pdma
  unless_pdma-Settles p pdma_io =
      (((refl, refl, refl, λ h. h), (refl, refl, refl)), λ io h. absurd (ground (arith, h)))
  unless_pdma-Settles p accelerated_io = swapped-Settles p p.ve_buff_using_flag

  -- ve_accelerated_io_pre succeeds with the flag taken, which no one had; when it fails or finds
  -- no buffer, the flag, errno and the thread's key are as they were. In each case the signal mask
  -- and the hooks are as before, and the list's lock is free if it was.
  pub pre-Settles :
      (p : Process K)
      → Settles p p.errno p.ve_buff_using_flag (pre w p)
        × ((io : AccIoInfo) → (pre w p).0 ≡ success io → p.ve_buff_using_flag ≡ false)
  unfolding pre
  pre-Settles p = unless_pdma-Settles p p.constructor_result

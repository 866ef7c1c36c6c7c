-- ===== src/Acc/Resources/Fork.antt =====
-- What a fork's child does with the buffers, and how the list of buffers lives on through requests
-- and the ends of threads.
use libsysve.Prelude.{
  ℕ, zero, suc, ◌≡◌, ◌≢◌, ◌<◌, refl, Bool, true, false, List, [], ◌∷◌, ◌++◌, arith, ◌∙◌,
}
use libsysve.Acc.Process.{AccIoResources, Process, World}
use libsysve.Acc.Resources.{
  unlink, release_resource, release_all, atfork_child, atfork_prepare, atfork_parent, dstfunc,
}
use libsysve.Acc.Resources.Links.{Distinct, Linked, unlink-Linked}

-- The number of nodes.
abbrev pub count : List ℕ → ℕ
count [] = 0
count (x ∷ xs) = suc (count xs)

module _ {K : Type 0} (w : World K) where
  -- Every node of the list is released as the fork's child does, from the first to the last.
  abbrev pub release_list : List ℕ → Process K → Process K
  release_list [] p = p
  release_list (x ∷ xs) p = release_list xs (release_resource w x true p)

  -- Releasing keeps the process's own variables.
  abbrev Steady : Process K → Process K → Type 0
  Steady p q =
      (q.heap ≡ p.heap)
      × (q.key ≡ p.key)
      × (q.list_locked ≡ p.list_locked)
      × (q.acc_io_sigset_old ≡ p.acc_io_sigset_old)

  release_resource-Steady :
      (a : ℕ) (forked : Bool) (p : Process K) → Steady p (release_resource w a forked p)
  unfolding release_resource
  release_resource-Steady a true p = (refl, refl, refl, refl)
  release_resource-Steady a false p = (refl, refl, refl, refl)

  release_list-Steady : (xs : List ℕ) (p : Process K) → Steady p (release_list xs p)
  release_list-Steady [] p = (refl, refl, refl, refl)
  release_list-Steady (x ∷ xs) p =
      let a : Steady p (release_resource w x true p) = release_resource-Steady x true p in
      let b : Steady (release_resource w x true p) (release_list (x ∷ xs) p) =
        release_list-Steady xs (release_resource w x true p) in
      (b.0 ∙ a.0, b.1 ∙ a.1, b.2 ∙ a.2, b.3 ∙ a.3)

  release_all-list :
      (fuel a : ℕ) (xs : List ℕ) (p : Process K)
      → Linked p.heap a xs
      → count xs < fuel
      → release_all w fuel (p.heap a).next p ≡ release_list xs p
  unfolding release_all release_resource
  release_all-list zero a xs p linked lt = absurd (omega arith)
  release_all-list (suc fuel) a [] p linked lt = rw linked refl
  release_all-list (suc fuel) a (x ∷ xs) p (eq, nz, back, linked) lt =
      let rest : release_all w fuel (p.heap x).next (release_resource w x true p)
          ≡ release_list xs (release_resource w x true p) =
        release_all-list fuel x xs (release_resource w x true p) linked (omega arith) in
      rw eq (ground (arith, rest))

  -- The system calls of a fork's child for the nodes of the list: for each, its VH buffer is freed and its
  -- block is, and nothing else is called.
  abbrev pub child_frees : List ℕ → (ℕ → AccIoResources) → K × ℕ → K × ℕ
  child_frees [] h s = s
  child_frees (x ∷ xs) h (k, err) =
      let (ret, (k', err')) = w.free_vh_buf (h x).vh_buff k err in
      child_frees xs h (w.free x k', err')

  release_list-frees :
      (xs : List ℕ) (p : Process K)
      → let q = release_list xs p in (q.sys, q.errno) ≡ child_frees xs p.heap (p.sys, p.errno)
  unfolding release_resource
  release_list-frees [] p = refl
  release_list-frees (x ∷ xs) p = release_list-frees xs (release_resource w x true p)

  -- After a fork, with fuel for the nodes, the child has, for each node of a well-linked list once
  -- and in their order, freed the VH buffer and the block, and has made no other call, so the DMA
  -- addresses stay registered; its list is empty, the thread has no key and no claim, the lock is
  -- free and the signal mask is the saved one.
  pub atfork_child-list :
      (fuel : ℕ) (xs : List ℕ) (p : Process K)
      → Linked p.heap w.list_head xs
      → count xs < fuel
      → let q = atfork_child w fuel p in
        ((q.sys, q.errno) ≡ child_frees xs p.heap (p.sys, p.errno))
        × Linked q.heap w.list_head []
        × (q.key ≡ 0)
        × (q.ve_buff_using_flag ≡ false)
        × (q.list_locked ≡ false)
        × (q.sigmask ≡ p.acc_io_sigset_old)
  unfolding atfork_child
  atfork_child-list fuel xs p linked lt =
      let released : Process K = record p { list_locked = false; key = 0 } in
      let kept : Steady released (release_list xs released) = release_list-Steady xs released in
      rw (release_all-list fuel w.list_head xs released linked lt)
        (release_list-frees xs released, ground arith, kept.1, refl, kept.2, kept.3)

  pub dstfunc-Linked :
      (p : Process K) (n : ℕ) (xs ys : List ℕ)
      → Linked p.heap w.list_head (xs ++ n ∷ ys)
      → Distinct (w.list_head ∷ xs ++ n ∷ ys)
      → w.list_head ≢ 0
      → let q = dstfunc w n p in
        Linked q.heap w.list_head (xs ++ ys)
        × (q.sys ≡ (release_resource w n false (record p { heap = unlink n p.heap })).sys)
        × (q.sigmask ≡ p.sigmask)
        × (q.list_locked ≡ false)
  unfolding dstfunc atfork_prepare atfork_parent release_resource
  dstfunc-Linked p n xs ys linked distinct nz =
      (unlink-Linked p.heap w.list_head n xs ys linked distinct nz, refl, refl, refl)

-- ===== src/Acc/Resources/Growth.antt =====
-- The list of all threads' buffers through `ve_accelerated_io_pre`: a thread's first success adds the
-- thread's node, and nothing else changes the list.
use libsysve.Prelude.{
  ℕ, zero, suc, ◌≡◌, ◌≢◌, refl, if◌then◌else◌, Bool, true, false, ◌||◌, Option, none, some, List,
  [], ◌∷◌, ◌==◌, update, arith, Bool-cases, inl, inr, sym, ◌∙◌,
}
use libsysve.Prelude.Int.{pos, ◌==ℤ◌}
use mathlib.Core.Path.{subst⁻¹}
use libsysve.Acc.Process.{
  run, Constructed, accelerated_io, pdma_io, Process, Init2, World, AccIoResources,
}
use libsysve.Acc.Resources.{
  Claim, success, fail, nobuf, asks_pdma, atfork_prepare, atfork_parent, chk_env_init_dma,
  release_resource, error_unlock_ve, claimed, publish, initialised, allocated, first_request, own,
  pre, swapped, unless_pdma,
}
use libsysve.Acc.Resources.Blocks.{
  Allocator, Lives, Lives-map, fresh-Apart, free-Lives, release_resource-Lives,
}
use libsysve.Acc.Resources.Links.{Apart, Distinct, Linked, Agree, frame-Linked, link_first-Linked}

update-Agree :
    (h : ℕ → AccIoResources) (b : ℕ) (v : AccIoResources) (xs : List ℕ)
    → Apart b xs
    → Agree (update h b v) h xs
update-Agree h b v [] apart = tt
update-Agree h b v (x ∷ xs) (ne, apart) = (ground arith, ground arith, update-Agree h b v xs apart)

module _ {K : Type 0} (w : World K) (alloc : Allocator w) where
  -- The list is `ys`, well linked; no node stands in it twice, and each is a block in use.
  abbrev pub Known : List ℕ → Process K → Type 0
  Known ys p =
      Linked p.heap w.list_head ys
      × Distinct (w.list_head ∷ ys)
      × Lives w alloc p.sys (w.list_head ∷ ys)

  module _ (xs : List ℕ) where
    -- The list after a request of a thread that had no buffers.
    abbrev pub Grown : Claim × Process K → Type 0
    Grown (success io, q) = (q.key ≢ 0) × Known (q.key ∷ xs) q
    Grown (fail, q) = (q.key ≡ 0) × Known xs q
    Grown (nobuf, q) = (q.key ≡ 0) × Known xs q

    publish-Grown :
        (errno a : ℕ) (ok : Bool) (q : Process K)
        → Apart a (w.list_head ∷ xs)
        → a ≢ 0
        → q.key ≡ 0
        → alloc.live q.sys a
        → Known xs q
        → Grown (publish w errno a (ok, q))
    unfolding publish error_unlock_ve release_resource atfork_prepare atfork_parent claimed
    publish-Grown errno a false q apart nz no_key live (linked, distinct, lives) = (
      no_key,
      (linked, distinct, release_resource-Lives w alloc a (w.list_head ∷ xs) q apart lives),
    )
    publish-Grown errno a true q apart nz no_key live (linked, distinct, lives) = (
      nz,
      (
        link_first-Linked q.heap w.list_head a xs linked (apart, distinct) nz,
        (((λ e. apart.0 (sym e)), distinct.0), (apart.1, distinct.1)),
        (lives.0, (live, lives.1)),
      ),
    )

    initialised-Grown :
        (errno a : ℕ) (r : Option Init2) (q : Process K)
        → Apart a (w.list_head ∷ xs)
        → a ≢ 0
        → q.key ≡ 0
        → alloc.live q.sys a
        → Known xs q
        → Grown (initialised w errno a (r, q))
    unfolding initialised error_unlock_ve
    initialised-Grown errno a none q apart nz no_key live (linked, distinct, lives) =
        (no_key, (linked, distinct, free-Lives w alloc q.sys a (w.list_head ∷ xs) apart lives))
    initialised-Grown errno a (some r) q (ne, apart) nz no_key live (linked, distinct, lives) =
        let node : AccIoResources = record {
          local_vehva = r.local_vehva;
          vehva = r.vehva;
          vh_buff = r.vhva;
          ve_io_buff = w.ve_io_buff_of a;
          next = 0;
          prev = 0;
        } in
        publish-Grown errno a _ _ (ne, apart) nz no_key
          (alloc.setspecific_keeps a q.sys q.errno a live)
          (
            frame-Linked (update q.heap a node) q.heap w.list_head xs (ground arith)
                (update-Agree q.heap a node xs apart) linked,
            distinct,
            Lives-map w alloc _ _ (w.list_head ∷ xs) (alloc.setspecific_keeps a q.sys q.errno)
                lives,
          )

    allocated-Grown :
        (errno a : ℕ) (q : Process K)
        → Apart a (w.list_head ∷ xs)
        → q.key ≡ 0
        → (a ≢ 0 → alloc.live q.sys a)
        → Known xs q
        → Grown (allocated w errno (a, q))
    unfolding allocated error_unlock_ve
    allocated-Grown errno zero q apart no_key live known = (no_key, known)
    allocated-Grown errno (suc b) q apart no_key live (linked, distinct, lives) =
        let keeps : (x : ℕ)
            → alloc.live q.sys x
            → alloc.live (w.init2 (w.ve_io_buff_of (suc b)) q.sys q.errno).1.0 x =
          alloc.init2_keeps (w.ve_io_buff_of (suc b)) q.sys q.errno in
        initialised-Grown errno (suc b) _ _ apart (omega arith) no_key
          (keeps (suc b) (live (omega arith)))
          (linked, distinct, Lives-map w alloc _ _ (w.list_head ∷ xs) keeps lives)

    first_request-Grown :
        (errno : ℕ) (c : Constructed) (q : Process K)
        → q.key ≡ 0
        → Known xs q
        → Grown (first_request w errno (c, q))
    unfolding first_request error_unlock_ve
    first_request-Grown errno pdma_io q no_key known = (no_key, known)
    first_request-Grown errno accelerated_io q no_key (linked, distinct, lives) =
        allocated-Grown errno _ _ (fresh-Apart w alloc q.sys q.errno (w.list_head ∷ xs) lives)
          no_key (alloc.given q.sys q.errno)
          (
            linked,
            distinct,
            Lives-map w alloc _ _ (w.list_head ∷ xs) (alloc.malloc_keeps q.sys q.errno) lives,
          )

    -- The list and the key as they were.
    abbrev pub Same : {A : Type 0} → Process K → A × Process K → Type 0
    Same p out = (out.1.key ≡ p.key) × Known xs out.1

    along : {A : Type 0} (p : Process K) (a b : A × Process K) → a ≡ b → Same p b → Same p a
    along p a b e same = subst⁻¹ (Same p) e same

    chk_env_init_dma-Same : (q : Process K) → Known xs q → Same q (chk_env_init_dma w q)
    unfolding chk_env_init_dma
    chk_env_init_dma-Same q (linked, distinct, lives) =
        elim (Bool-cases (asks_pdma (w.setting_pdma q.sys) || asks_pdma (w.setting_atomic q.sys))) [
          | inl e ↦
              along q (chk_env_init_dma w q) (pdma_io, q) (rw e refl)
                (refl, (linked, distinct, lives))
          | inr e ↦
              along q (chk_env_init_dma w q)
                (let (ret, p') = run w.ve_dma_init q in
                  (if ret ==ℤ pos 0 then accelerated_io else pdma_io, p'))
                (rw e refl)
                (
                  refl,
                  (
                    linked,
                    distinct,
                    Lives-map w alloc _ _ (w.list_head ∷ xs) (alloc.ve_dma_init_keeps q.sys q.errno)
                        lives,
                  ),
                )
        ]

    swapped-Grown :
        (taken : Bool) (q : Process K) → q.key ≡ 0 → Known xs q → Grown (swapped w taken q)
    unfolding swapped own
    swapped-Grown true q no_key known = (no_key, known)
    swapped-Grown false q no_key known =
        let first : (q.key == 0) ≡ true = ground arith in
        let (same, known') = chk_env_init_dma-Same q known in
        rw first (first_request-Grown q.errno _ _ (same ∙ no_key) known')

    unless_pdma-Grown :
        (c : Constructed) (q : Process K) → q.key ≡ 0 → Known xs q → Grown (unless_pdma w c q)
    unfolding unless_pdma
    unless_pdma-Grown pdma_io q no_key known = (no_key, known)
    unless_pdma-Grown accelerated_io q no_key known =
        swapped-Grown q.ve_buff_using_flag (record q { ve_buff_using_flag = true }) no_key known

    -- A first request of a thread keeps the list of buffers well linked both ways, with distinct
    -- nodes that are all blocks in use. If ve_accelerated_io_pre succeeds, the thread's new node
    -- is its key and has joined at the front; otherwise the list has the nodes it had and the
    -- thread still has no key. The thread has no key before, and malloc and free keep their
    -- promises.
    pub pre-Grown : (p : Process K) → p.key ≡ 0 → Known xs p → Grown (pre w p)
    unfolding pre
    pre-Grown p no_key known = unless_pdma-Grown p.constructor_result p no_key known

    swapped-Same :
        (taken : Bool) (q : Process K) → q.key ≢ 0 → Known xs q → Same q (swapped w taken q)
    unfolding swapped own claimed
    swapped-Same true q has_key known = (refl, known)
    swapped-Same false q has_key known =
        let later : (q.key == 0) ≡ false = ground arith in
        along q (own w q) (claimed w q.key q) (rw later refl) (refl, known)

    unless_pdma-Same :
        (c : Constructed) (q : Process K) → q.key ≢ 0 → Known xs q → Same q (unless_pdma w c q)
    unfolding unless_pdma
    unless_pdma-Same pdma_io q has_key known = (refl, known)
    unless_pdma-Same accelerated_io q has_key known =
        swapped-Same q.ve_buff_using_flag (record q { ve_buff_using_flag = true }) has_key known

    -- A later request of a thread, which has its key, leaves the key and the nodes of the
    -- well-linked list, whatever ve_accelerated_io_pre returns.
    pub pre-Same : (p : Process K) → p.key ≢ 0 → Known xs p → Same p (pre w p)
    unfolding pre
    pre-Same p has_key known = unless_pdma-Same p.constructor_result p has_key known

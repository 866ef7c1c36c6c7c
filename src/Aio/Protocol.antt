-- ===== src/Aio/Protocol.antt =====
-- The life of a context of src/libveaio.c, as steps of its user and of the VH.
use libsysve.Prelude.{
  ℕ, suc, ◌+◌, ◌≡◌, refl, Bool, true, false, Option, none, some, arith, Bool-cases, inl, inr, sym,
  ◌∙◌,
}
use libsysve.Prelude.Int.{ℤ, pos, negsuc}
use libsysve.Aio.{
  AioResult, Done, AioState, AioRequest, Reply, success, failure, AioEnv, complete, fini_at,
  ve_aio_fini, began, start_at, ve_aio_read, ve_aio_write, ve_aio_query, ve_aio_wait, wait_at,
  after_wait, waited_at, meanwhile, query_at,
}

abbrev count_of : Bool → ℕ
count_of true = 1
count_of false = 0

-- The requests that a context accounts for.
abbrev pub expected : Option AioResult → ℕ
expected none = 0
expected (some r) = count_of r.active

-- A start that returned 0 is one more request at the VH.
abbrev pub started : ℤ → ℕ
started (pos n) = 1
started (negsuc n) = 0

count_of-suc : (n : ℕ) (b : Bool) → suc n ≡ count_of b → n ≡ 0
count_of-suc n true h = ground arith
count_of-suc n false h = ground arith

-- A wait on an active context may see its request land.
abbrev pub delivered : Option AioResult → Option Done → ℕ
delivered none d = 0
delivered (some r) none = 0
delivered (some r) (some d) = count_of r.active

delivered-idle : (r : AioResult) (d : Option Done) → r.active ≡ false → delivered (some r) d ≡ 0
delivered-idle r none a = refl
delivered-idle r (some d) a = rw a refl

module _ {K : Type 0} (e : AioEnv K) where
  -- The state with the number of requests at the VH.
  pub data Step : AioState K → ℕ → AioState K → ℕ → Type 0 where
    read :
        (req : AioRequest) (s : AioState K) (n : ℕ)
        → Step s n (ve_aio_read e req s).1 (n + started (ve_aio_read e req s).0)
    write :
        (req : AioRequest) (s : AioState K) (n : ℕ)
        → Step s n (ve_aio_write e req s).1 (n + started (ve_aio_write e req s).0)
    fini : (s : AioState K) (n : ℕ) → Step s n (ve_aio_fini e s).1 n
    query : (s : AioState K) (n : ℕ) → Step s n (ve_aio_query e s).2 n
    landed :
        (d : Done) (s : AioState K) (n : ℕ) → Step s (suc n) (record s { ctx = complete d s.ctx }) n
    wait :
        (s : AioState K) (n m : ℕ)
        → n ≡ m + delivered s.ctx (e.aio2_wait s.kernel).1
        → Step s n (ve_aio_wait e s).2 m

  -- What can follow a context that was just made.
  pub data Reachable : AioState K → ℕ → Type 0 where
    made : (s : AioState K) (r : AioResult) → s.ctx ≡ some r → r.active ≡ false → Reachable s 0
    next : {s t : AioState K} {n m : ℕ} → Reachable s n → Step s n t m → Reachable t m

  began-expected :
      (r : AioResult) (out : Reply × K) (s : AioState K)
      → r.active ≡ true
      → let o = began e r out s in started o.0 ≡ expected o.1.ctx
  unfolding began
  began-expected r (success, k) s a = rw a refl
  began-expected r (failure ret err, k) s a = refl

  start_at-expected :
      (call : AioRequest → K → Reply × K) (req : AioRequest) (c : Option AioResult) (s : AioState K)
      (n : ℕ)
      → s.ctx ≡ c
      → n ≡ expected c
      → let o = start_at e call req c s in n + started o.0 ≡ expected o.1.ctx
  unfolding start_at
  start_at-expected call req none s n at eq = rw at (ground arith)
  start_at-expected call req (some r) s n at eq = elim (Bool-cases r.active) [
    | inl a ↦ rw a (rw at (ground arith))
    | inr a ↦
        let b : started (began e (record r { active = true }) (call req s.kernel) s).0
            ≡ expected (began e (record r { active = true }) (call req s.kernel) s).1.ctx =
          began-expected (record r { active = true }) (call req s.kernel) s refl in
        rw a (ground (arith, b))
  ]

  fini_at-expected :
      (c : Option AioResult) (s : AioState K)
      → s.ctx ≡ c
      → expected (fini_at e c s).1.ctx ≡ expected c
  unfolding fini_at
  fini_at-expected none s at = rw at refl
  fini_at-expected (some r) s at = elim (Bool-cases r.active) [
    | inl a ↦ rw a (rw at (ground arith))
    | inr a ↦ rw a refl
  ]

  query_at-ctx : (c : Option AioResult) (s : AioState K) → (query_at e c s).2.ctx ≡ s.ctx
  unfolding query_at
  query_at-ctx none s = refl
  query_at-ctx (some r) s = ground arith

  waited_at-ctx : (c : Option AioResult) (s : AioState K) → (waited_at e c s).2.ctx ≡ s.ctx
  unfolding waited_at
  waited_at-ctx none s = refl
  waited_at-ctx (some r) s = ground arith

  after_wait-ctx : (reply : Reply) (s : AioState K) → (after_wait e reply s).2.ctx ≡ s.ctx
  unfolding after_wait
  after_wait-ctx success s = waited_at-ctx s.ctx s
  after_wait-ctx (failure ret err) s = refl

  meanwhile-expected :
      (l : Option Done) (r : AioResult) (m : ℕ)
      → r.active ≡ true
      → 1 ≡ m + delivered (some r) l
      → m ≡ expected (meanwhile e l (some r))
  unfolding meanwhile complete
  meanwhile-expected none r m a sum = ground arith
  meanwhile-expected (some d) r m a sum = ground arith

  wait_at-expected :
      (c : Option AioResult) (s : AioState K) (n m : ℕ)
      → s.ctx ≡ c
      → n ≡ expected c
      → n ≡ m + delivered c (e.aio2_wait s.kernel).1
      → m ≡ expected (wait_at e c s).2.ctx
  unfolding wait_at
  wait_at-expected none s n m at eq sum = rw at (ground arith)
  wait_at-expected (some r) s n m at eq sum = elim (Bool-cases r.active) [
    | inl a ↦
        let out : AioState K = record s {
          kernel = (e.aio2_wait s.kernel).2;
          ctx = meanwhile e (e.aio2_wait s.kernel).1 s.ctx;
        } in
        let kept : m ≡ expected (meanwhile e (e.aio2_wait s.kernel).1 (some r)) =
          meanwhile-expected (e.aio2_wait s.kernel).1 r m a (ground (arith, eq, sum)) in
        rw a (rw (after_wait-ctx (e.aio2_wait s.kernel).0 out) (rw at kept))
    | inr a ↦ rw a (rw at (ground (arith, eq, sum, delivered-idle r (e.aio2_wait s.kernel).1 a)))
  ]

  pub Step-expected :
      {s t : AioState K} {n m : ℕ} → Step s n t m → n ≡ expected s.ctx → m ≡ expected t.ctx
  unfolding ve_aio_read ve_aio_write ve_aio_fini ve_aio_query ve_aio_wait complete
  Step-expected (read req s n) eq = start_at-expected e.aio2_read req s.ctx s n refl eq
  Step-expected (write req s n) eq = start_at-expected e.aio2_write req s.ctx s n refl eq
  Step-expected (fini s n) eq = eq ∙ sym (fini_at-expected s.ctx s refl)
  Step-expected (query s n) eq = rw (query_at-ctx s.ctx s) eq
  Step-expected (landed d s n) eq = landed_lem d s.ctx n eq
    where
      landed_lem :
          (d : Done) (c : Option AioResult) (n : ℕ)
          → suc n ≡ expected c
          → n ≡ expected (complete d c)
      landed_lem d none n h = ground arith
      landed_lem d (some r) n h = count_of-suc n r.active h
  Step-expected (wait s n m sum) eq = wait_at-expected s.ctx s n m refl eq sum

  -- Whatever a context's user and the VH do, from a new context on, the VH has exactly one request
  -- of the context when it is active, and none otherwise. The VH completes only requests that it
  -- has.
  pub Reachable-expected : {s : AioState K} {n : ℕ} → Reachable s n → n ≡ expected s.ctx
  Reachable-expected (made s r at idle) = rw at (rw idle refl)
  Reachable-expected (next reached step) = Step-expected step (Reachable-expected reached)

  -- When ve_aio_fini gives back a reachable context, with the result 0, the VH has no request that
  -- would write it.
  pub ve_aio_fini-Reachable :
      {s : AioState K} {n : ℕ} → Reachable s n → (ve_aio_fini e s).0 ≡ pos 0 → n ≡ 0
  unfolding ve_aio_fini fini_at
  ve_aio_fini-Reachable {s = s} {n = n} reached ok =
      fini_idle s.ctx s n (Reachable-expected reached) ok
    where
      fini_idle :
          (c : Option AioResult) (s : AioState K) (n : ℕ)
          → n ≡ expected c
          → (fini_at e c s).0 ≡ pos 0
          → n ≡ 0
      fini_idle none s n h k = h
      fini_idle (some r) s n h k = elim (Bool-cases r.active) [
        | inl a ↦ ground (arith, a, k)
        | inr a ↦ ground (arith, a, h)
      ]

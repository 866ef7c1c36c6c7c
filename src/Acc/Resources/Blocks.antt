-- ===== src/Acc/Resources/Blocks.antt =====
-- The blocks that src/accelerated_io.c gets from `malloc` for its threads' buffers, and which are in use.
use libsysve.Prelude.{ℕ, ◌≢◌, List, [], ◌∷◌, ◌++◌, false}
use libsysve.Acc.Process.{Process, World}
use libsysve.Acc.Resources.{release_resource}
use libsysve.Acc.Resources.Links.{Apart}

-- What `malloc` and `free` promise, `live` being the blocks that are in use; the other calls leave the blocks.
pub record Allocator {K : Type 0} (w : World K) : Type 1 where
  pub live : K → ℕ → Type 0
  pub fresh : (k : K) (errno x : ℕ) → live k x → (w.malloc k errno).0 ≢ x
  pub given :
      (k : K) (errno : ℕ)
      → (w.malloc k errno).0 ≢ 0
      → live (w.malloc k errno).1.0 (w.malloc k errno).0
  pub malloc_keeps : (k : K) (errno x : ℕ) → live k x → live (w.malloc k errno).1.0 x
  pub free_keeps : (k : K) (a x : ℕ) → a ≢ x → live k x → live (w.free a k) x
  pub ve_dma_init_keeps : (k : K) (errno x : ℕ) → live k x → live (w.ve_dma_init k errno).1.0 x
  pub init2_keeps : (b : ℕ) (k : K) (errno x : ℕ) → live k x → live (w.init2 b k errno).1.0 x
  pub setspecific_keeps :
      (a : ℕ) (k : K) (errno x : ℕ) → live k x → live (w.setspecific a k errno).1.0 x
  pub free_vh_buf_keeps :
      (a : ℕ) (k : K) (errno x : ℕ) → live k x → live (w.free_vh_buf a k errno).1.0 x
  pub unregister_dmaatb_keeps :
      (a b : ℕ) (k : K) (errno x : ℕ) → live k x → live (w.unregister_dmaatb a b k errno).1.0 x

module _ {K : Type 0} (w : World K) (alloc : Allocator w) where
  abbrev pub Lives : K → List ℕ → Type 0
  Lives k [] = Unit {0}
  Lives k (x ∷ xs) = alloc.live k x × Lives k xs

  pub Lives-map :
      (k l : K) (xs : List ℕ)
      → ((x : ℕ) → alloc.live k x → alloc.live l x)
      → Lives k xs
      → Lives l xs
  Lives-map k l [] keeps lives = tt
  Lives-map k l (x ∷ xs) keeps (live, lives) = (keeps x live, Lives-map k l xs keeps lives)

  pub fresh-Apart : (k : K) (errno : ℕ) (xs : List ℕ) → Lives k xs → Apart (w.malloc k errno).0 xs
  fresh-Apart k errno [] lives = tt
  fresh-Apart k errno (x ∷ xs) (live, lives) =
      (alloc.fresh k errno x live, fresh-Apart k errno xs lives)

  pub free-Lives : (k : K) (a : ℕ) (xs : List ℕ) → Apart a xs → Lives k xs → Lives (w.free a k) xs
  free-Lives k a [] apart lives = tt
  free-Lives k a (x ∷ xs) (ne, apart) (live, lives) =
      (alloc.free_keeps k a x ne live, free-Lives k a xs apart lives)

  pub Lives-without : (k : K) (a : ℕ) (ls rs : List ℕ) → Lives k (ls ++ a ∷ rs) → Lives k (ls ++ rs)
  Lives-without k a [] rs (live, lives) = lives
  Lives-without k a (x ∷ ls) rs (live, lives) = (live, Lives-without k a ls rs lives)

  -- Giving back other buffers.
  pub release_resource-Lives :
      (a : ℕ) (xs : List ℕ) (p : Process K)
      → Apart a xs
      → Lives p.sys xs
      → Lives (release_resource w a false p).sys xs
  unfolding release_resource
  release_resource-Lives a xs p apart lives = free-Lives _ a xs apart (
      Lives-map _ _ xs (alloc.unregister_dmaatb_keeps (p.heap a).local_vehva (p.heap a).vehva _ _)
        (Lives-map _ _ xs (alloc.free_vh_buf_keeps (p.heap a).vh_buff _ _) lives))

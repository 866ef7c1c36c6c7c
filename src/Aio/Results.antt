-- ===== src/Aio/Results.antt =====
-- What comes back from a request of src/libveaio.c: the result that the VH stored, by query or by wait.
use libsysve.Prelude.{◌≡◌, refl, true, false, Option, none, some}
use mathlib.Core.Path.{subst⁻¹}
use libsysve.Prelude.Int.{ℤ, pos}
use libsysve.Aio.{
  AioResult, Done, AioState, AioRequest, Reply, success, AioEnv, complete, began, start_at,
  ve_aio_read, ve_aio_write, ve_aio_query, ve_aio_wait, query_at, wait_at, after_wait, waited_at,
  meanwhile,
}

module _ {K : Type 0} (e : AioEnv K) where
  -- The state once the VH has stored `d`.
  abbrev pub landed_state : Done → K → AioState K → AioState K
  landed_state d k s = record s { kernel = k; ctx = complete d s.ctx }

  -- A request under way: a query says so, and the result `d` comes back from a query or a wait after it
  -- landed, and from a wait that sees it land and leaves the kernel at `k'`.
  abbrev pub Delivers : Done → K → ℤ × AioState K → Type 0
  Delivers d k' (ret, s) =
      (ret ≡ pos 0)
      × (ve_aio_query e s ≡ (pos 1, none, s))
      × (ve_aio_query e (landed_state d s.kernel s) ≡ (pos 0, some d, landed_state d s.kernel s))
      × (ve_aio_wait e (landed_state d s.kernel s) ≡ (pos 0, some d, landed_state d s.kernel s))
      × (ve_aio_wait e s ≡ (pos 0, some d, landed_state d k' s))

  under_way-Delivers :
      (d : Done) (k k' : K) (r : AioResult) (s : AioState K)
      → e.aio2_wait k ≡ (success, some d, k')
      → Delivers d k' (began e (record r { active = true }) (success, k) s)
  unfolding began ve_aio_query ve_aio_wait query_at wait_at after_wait waited_at meanwhile complete
  under_way-Delivers d k k' r s lands = (refl, refl, refl, refl, rw lands refl)

  start_at-began :
      (call : AioRequest → K → Reply × K) (req : AioRequest) (k : K) (r : AioResult)
      (c : Option AioResult) (s : AioState K)
      → c ≡ some r
      → r.active ≡ false
      → call req s.kernel ≡ (success, k)
      → start_at e call req c s ≡ began e (record r { active = true }) (success, k) s
  unfolding start_at
  start_at-began call req k r c s at idle accepted = rw at (rw idle (rw accepted refl))

  -- A read or write that an idle context starts and the VH accepts returns 0. A query says that it
  -- is under way; once the VH has stored its result, a query or a wait returns 0 with exactly that
  -- result; and so does a wait that sees it land.
  pub started-Delivers :
      (req : AioRequest) (d : Done) (k k' : K) (r : AioResult) (s : AioState K)
      → s.ctx ≡ some r
      → r.active ≡ false
      → e.aio2_read req s.kernel ≡ (success, k)
      → e.aio2_write req s.kernel ≡ (success, k)
      → e.aio2_wait k ≡ (success, some d, k')
      → Delivers d k' (ve_aio_read e req s) × Delivers d k' (ve_aio_write e req s)
  unfolding ve_aio_read ve_aio_write
  started-Delivers req d k k' r s at idle read_ok write_ok lands =
      let under_way : Delivers d k' (began e (record r { active = true }) (success, k) s) =
        under_way-Delivers d k k' r s lands in
      (
        subst⁻¹ (Delivers d k') (start_at-began e.aio2_read req k r s.ctx s at idle read_ok)
            under_way,
        subst⁻¹ (Delivers d k') (start_at-began e.aio2_write req k r s.ctx s at idle write_ok)
            under_way,
      )

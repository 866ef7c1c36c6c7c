-- ===== src/Acc/Threads/Owners.antt =====
-- Which thread has which buffers, whatever the threads of a process do.
use libsysve.Prelude.{
  ℕ, ◌<◌, ◌≡◌, ◌≢◌, refl, List, [], ◌∷◌, ◌++◌, ◌==◌, Bool-cases, inl, inr, arith, sym, ◌∙◌,
}
use mathlib.Core.Path.{subst, subst⁻¹}
use libsysve.Acc.Process.{Process, World}
use libsysve.Acc.Resources.{
  Claim, success, fail, nobuf, pre, post, dstfunc, atfork_prepare, atfork_parent, unlink,
  release_resource,
}
use libsysve.Acc.Resources.Links.{Linked}
use libsysve.Acc.Resources.Fork.{count, dstfunc-Linked, atfork_child-list}
use libsysve.Acc.Resources.Blocks.{Allocator, Lives, Lives-without, release_resource-Lives}
use libsysve.Acc.Resources.Growth.{Known, Grown, pre-Grown, pre-Same}
use libsysve.Acc.Threads.{
  System, view, leave, end_thread, Step, request, finished, ended, forked, forked_child, Reachable,
  fresh_process, then,
}
use libsysve.Acc.Threads.Members.{split, Distinct-without, Distinct-Apart}
use libsysve.Acc.Threads.Keys.{Keyed, Others, Keyed-same, Keyed-join, Keyed-part}

abbrev pub keys : {K : Type 0} → System K → ℕ → ℕ
keys s t = (s.threads t).key

module _ {K : Type 0} (w : World K) (alloc : Allocator w) (head_nz : w.list_head ≢ 0)
    (head_live : (k : K) → alloc.live k w.list_head) where
  -- The list is well linked and holds exactly the nodes of the threads, each once.
  abbrev pub Owned : System K → Type 0
  Owned s = (xs : List ℕ) × Known w alloc xs (view 0 s) × Keyed xs (keys s)

  leave-Others : (t : ℕ) (s : System K) (p : Process K) → Others t (keys s) (keys (leave t s p))
  leave-Others t s p u ne = ground arith

  leave-key : (t : ℕ) (s : System K) (p : Process K) → keys (leave t s p) t ≡ p.key
  leave-key t s p = ground arith

  -- A step that keeps the list and the key.
  leave-Same :
      (t : ℕ) (s : System K) (p : Process K) (xs : List ℕ)
      → Known w alloc xs p
      → p.key ≡ keys s t
      → Keyed xs (keys s)
      → Owned (leave t s p)
  leave-Same t s p xs known same keyed = (
    xs,
    known,
    Keyed-same xs t (keys s) (keys (leave t s p)) (leave-Others t s p) (leave-key t s p ∙ same)
        keyed,
  )

  -- A thread without buffers asks for them.
  first-Owned :
      (t : ℕ) (s : System K) (xs : List ℕ) (out : Claim × Process K)
      → keys s t ≡ 0
      → Keyed xs (keys s)
      → Grown w alloc xs out
      → Owned (leave t s out.1)
  first-Owned t s xs (success io, q) no_key keyed (nz, known) = (
    q.key ∷ xs,
    known,
    Keyed-join t q.key xs (keys s) (keys (leave t s q)) (leave-Others t s q) no_key
        (leave-key t s q) nz known.1.1.0 keyed,
  )
  first-Owned t s xs (fail, q) no_key keyed (same, known) =
      leave-Same t s q xs known (same ∙ sym no_key) keyed
  first-Owned t s xs (nobuf, q) no_key keyed (same, known) =
      leave-Same t s q xs known (same ∙ sym no_key) keyed

  request-Owned : (t : ℕ) (s : System K) → Owned s → Owned (leave t s (pre w (view t s)).1)
  request-Owned t s (xs, known, keyed) = elim (Bool-cases (keys s t == 0)) [
    | inl e ↦
        first-Owned t s xs (pre w (view t s)) (ground arith) keyed
          (pre-Grown w alloc xs (view t s) (ground arith) known)
    | inr e ↦
        let (same, known') = pre-Same w alloc xs (view t s) (ground arith) known in
        leave-Same t s (pre w (view t s)).1 xs known' same keyed
  ]

  finished-Owned : (t : ℕ) (s : System K) → Owned s → Owned (leave t s (post (view t s)))
  unfolding post
  finished-Owned t s (xs, known, keyed) = leave-Same t s (post (view t s)) xs known refl keyed

  -- Taking the node of the thread out of the list, and giving its buffers back.
  part_Known :
      (a : ℕ) (p : Process K) (ls rs : List ℕ)
      → Known w alloc (ls ++ a ∷ rs) p
      → Known w alloc (ls ++ rs) (dstfunc w a p)
  part_Known a p ls rs (linked, distinct, lives) =
      let (linked', sent, _, _) = dstfunc-Linked w p a ls rs linked distinct head_nz in
      (
        linked',
        Distinct-without a (w.list_head ∷ ls) rs distinct,
        subst⁻¹ (λ k. Lives w alloc k (w.list_head ∷ ls ++ rs)) sent
            (release_resource-Lives w alloc a (w.list_head ∷ ls ++ rs)
              (record p { heap = unlink a p.heap })
              (Distinct-Apart a (w.list_head ∷ ls) rs distinct)
              (Lives-without w alloc p.sys a (w.list_head ∷ ls) rs lives)),
      )

  dstfunc-key : (a : ℕ) (p : Process K) → (dstfunc w a p).key ≡ p.key
  unfolding dstfunc atfork_prepare atfork_parent release_resource
  dstfunc-key a p = refl

  ended-Owned : (t : ℕ) (s : System K) → keys s t ≢ 0 → Owned s → Owned (end_thread w t s)
  unfolding end_thread
  ended-Owned t s has_key (xs, known, keyed) =
      let (ls, rs, e) = split (keys s t) xs (keyed.0 t has_key) in
      let known' : Known w alloc (ls ++ keys s t ∷ rs) (view 0 s) =
        subst (λ l. Known w alloc l (view 0 s)) e known in
      let p : Process K = dstfunc w (keys s t) (record (view t s) { key = 0 }) in
      (
        ls ++ rs,
        part_Known (keys s t) (record (view t s) { key = 0 }) ls rs known',
        Keyed-part t ls rs (keys s) (keys (leave t s p)) (leave-Others t s p)
            (leave-key t s p ∙ dstfunc-key (keys s t) (record (view t s) { key = 0 })) has_key
            known'.1.1 (subst (λ l. Keyed l (keys s)) e keyed),
      )

  forked-Owned :
      (t fuel : ℕ) (xs : List ℕ) (s : System K)
      → Linked s.heap w.list_head xs
      → count xs < fuel
      → Owned (forked_child w t fuel s)
  unfolding forked_child atfork_prepare
  forked-Owned t fuel xs s linked lt =
      let p : Process K = atfork_prepare w (view t s) in
      let (_, empty, no_key, _, _, _) = atfork_child-list w fuel xs p linked lt in
      let none_has : (u : ℕ) → keys (forked_child w t fuel s) u ≡ 0 = λ u. ground (arith, no_key) in
      (
        [],
        (empty, (tt, tt), (head_live _, tt)),
        (
          (λ u has. absurd (has (none_has u))),
          (λ u v has e. absurd (has (none_has u))),
          (λ a there. absurd there),
        ),
      )

  Step-Owned : {s s' : System K} → Step w s s' → Owned s → Owned s'
  Step-Owned (request t s) owned = request-Owned t s owned
  Step-Owned (finished t s) owned = finished-Owned t s owned
  Step-Owned (forked t fuel xs s linked lt) owned = forked-Owned t fuel xs s linked lt
  Step-Owned (ended t s has_key) owned = ended-Owned t s has_key owned

  -- Whatever the threads of a process do, in any order of requests, their ends, ends of threads
  -- and forks, the list of buffers is well linked both ways and holds exactly the nodes that are
  -- some thread's key, each once, and no two threads have the same. malloc and free keep their
  -- promises, and the list's head, not NULL, is no block of theirs.
  pub Reachable-Owned : {s : System K} → Reachable w s → Owned s
  Reachable-Owned (fresh_process s empty no_keys) = (
    [],
    (empty, (tt, tt), (head_live s.sys, tt)),
    (
      (λ t has. absurd (has (no_keys t))),
      (λ t u has e. absurd (has (no_keys t))),
      (λ a there. absurd there),
    ),
  )
  Reachable-Owned (then {s} {s'} before step) = Step-Owned step (Reachable-Owned before)

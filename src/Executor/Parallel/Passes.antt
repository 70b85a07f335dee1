-- ===== src/Executor/Parallel/Passes.antt =====
-- pkg/engine/executor/executor.go, `findAndLaunchReady`: induction over its passes.
use cldctl.Prelude.{
  Bool-cases, List, Option-cases, [], all, arith, false, inl, inr, some, true, ◌++◌, ◌∷◌, ◌≡◌, suc,
  zero, ℕ, if_ind, length, not, ◌&&◌, ◌+◌,
}
use cldctl.Executor.{ExecError, Options, Outside, dependency_failed, deployment_stopped}
use cldctl.Planner.{ResourceChange}
use cldctl.Executor.Parallel.{
  Shared, cascade_one, fail_node, first_failed, member, cascade, cascade_pass, launch_one,
  launch_pass, stop_one, stop_pass, find_and_launch_ready, give_up, is_empty_list,
}
use cldctl.Text.{Text}
use cldctl.Dict.{get, keys}
use cldctl.Graph.Topo.{ids}
use cldctl.Executor.Parallel.Invariant.{member-occ}
use cldctl.Text.Sort.{occ}
use mathlib.Core.Path.{subst}

pub idle_of_member : (id : Text) (ids : List Text) → member id ids ≡ false → occ id ids ≡ 0
idle_of_member id ids h = ground (arith, member-occ id ids)

module _ (options : Options) (outside : Outside) (P : Shared → Type 0) where
  -- What the failure of a node that is pending and not in flight keeps.
  abbrev pub KeptByFailure : Type 0
  KeptByFailure =
      (s : Shared) (k : Text) (c : ResourceChange) (error : ExecError)
      → P s
      → get s.pending k ≡ some c
      → occ k s.in_flight ≡ 0
      → P (fail_node options outside c error s)

  -- What the launch of a node that is pending, not in flight and ready keeps.
  abbrev pub KeptByLaunch : Type 0
  KeptByLaunch =
      (s : Shared) (k : Text) (c : ResourceChange)
      → P s
      → get s.pending k ≡ some c
      → occ k s.in_flight ≡ 0
      → all (λ d. member d s.completed) c.node.depends_on ≡ true
      → P (record s { in_flight = k ∷ s.in_flight; waiting = s.waiting ++ c ∷ [] })

  pub cascade_one-keeps :
      KeptByFailure → (id : Text) (s : Shared) → P s → P (cascade_one options outside id s).0
  unfolding cascade_one
  cascade_one-keeps fails id s h =
      let after : Shared = (cascade_one options outside id s).0 in
      elim (Bool-cases (member id s.in_flight)) [
        | inl busy ↦ let e : s ≡ after = ground (arith, busy) in subst P e h
        | inr idle ↦ elim (Option-cases (get s.pending id)) [
          | inl absent ↦ let e : s ≡ after = ground (arith, idle, absent) in subst P e h
          | inr (c, there) ↦ elim (Option-cases (first_failed s.failed c.node.depends_on)) [
            | inl fine ↦ let e : s ≡ after = ground (arith, idle, there, fine) in subst P e h
            | inr (dep, broken) ↦
                let e : fail_node options outside c (dependency_failed dep) s ≡ after =
                  ground (arith, idle, there, broken) in
                subst P e (
                  fails s id c (dependency_failed dep) h there (idle_of_member id s.in_flight idle))
          ]
        ]
      ]

  pub cascade_pass-keeps :
      KeptByFailure
      → (ids : List Text) (s : Shared) → P s
      → P (cascade_pass options outside ids s).0
  unfolding cascade_pass
  cascade_pass-keeps fails [] s h = h
  cascade_pass-keeps fails (id ∷ ids) s h =
      cascade_pass-keeps fails ids (cascade_one options outside id s).0
        (cascade_one-keeps fails id s h)

  pub cascade-keeps :
      KeptByFailure → (fuel : ℕ) (s : Shared) → P s → P (cascade options outside fuel s)
  unfolding cascade
  cascade-keeps fails zero s h = h
  cascade-keeps fails (suc fuel) s h =
      let once = cascade_pass-keeps fails (keys s.pending) s h in
      elim (Bool-cases (cascade_pass options outside (keys s.pending) s).1) [
        | inl more ↦
            rw (more, cascade)
              (cascade-keeps fails fuel (cascade_pass options outside (keys s.pending) s).0 once)
        | inr stable ↦ rw (stable, cascade) once
      ]

  stop_one-keeps :
      KeptByFailure → (id : Text) (s : Shared) → P s → P (stop_one options outside id s)
  unfolding stop_one
  stop_one-keeps fails id s h =
      let after : Shared = stop_one options outside id s in
      elim (Bool-cases (member id s.in_flight)) [
        | inl busy ↦ let e : s ≡ after = ground (arith, busy) in subst P e h
        | inr idle ↦ elim (Option-cases (get s.pending id)) [
          | inl absent ↦ let e : s ≡ after = ground (arith, idle, absent) in subst P e h
          | inr (c, there) ↦
              let e : fail_node options outside c deployment_stopped s ≡ after =
                ground (arith, idle, there) in
              subst P e
                (fails s id c deployment_stopped h there (idle_of_member id s.in_flight idle))
        ]
      ]

  pub stop_pass-keeps :
      KeptByFailure → (ids : List Text) (s : Shared) → P s → P (stop_pass options outside ids s)
  unfolding stop_pass
  stop_pass-keeps fails [] s h = h
  stop_pass-keeps fails (id ∷ ids) s h =
      stop_pass-keeps fails ids (stop_one options outside id s) (stop_one-keeps fails id s h)

  launch_one-keeps : KeptByLaunch → (id : Text) (s : Shared) → P s → P (launch_one id s)
  unfolding launch_one
  launch_one-keeps launches id s h =
      let after : Shared = launch_one id s in
      elim (Bool-cases (member id s.in_flight)) [
        | inl busy ↦ let e : s ≡ after = ground (arith, busy) in subst P e h
        | inr idle ↦ elim (Option-cases (get s.pending id)) [
          | inl absent ↦ let e : s ≡ after = ground (arith, idle, absent) in subst P e h
          | inr (c, there) ↦ elim (Bool-cases (all (λ d. member d s.completed) c.node.depends_on)) [
            | inl fit ↦
                let e : record s { in_flight = id ∷ s.in_flight; waiting = s.waiting ++ c ∷ [] }
                    ≡ after =
                  ground (arith, idle, there, fit) in
                subst P e (launches s id c h there (idle_of_member id s.in_flight idle) fit)
            | inr unfit ↦ let e : s ≡ after = ground (arith, idle, there, unfit) in subst P e h
          ]
        ]
      ]

  pub launch_pass-keeps :
      KeptByLaunch → (ids : List Text) (s : Shared) → P s → P (launch_pass ids s)
  unfolding launch_pass
  launch_pass-keeps launches [] s h = h
  launch_pass-keeps launches (id ∷ ids) s h =
      launch_pass-keeps launches ids (launch_one id s) (launch_one-keeps launches id s h)

  -- What the two flags keep.
  abbrev pub KeptByFlags : Type 0
  KeptByFlags =
      (s : Shared) → P s → P (record s { is_cancelled = true }) × P (record s { is_done = true })

  pub find_and_launch_ready-keeps :
      KeptByFailure
      → KeptByLaunch
      → KeptByFlags
      → (s : Shared) → P s
      → P (find_and_launch_ready options outside s)
  unfolding find_and_launch_ready give_up
  find_and_launch_ready-keeps fails launches flags s h =
      let s' = cascade options outside (length s.pending + 1) s in
      let h' = cascade-keeps fails (length s.pending + 1) s h in
      if_ind P s.is_done (flags s h).0 (
        if_ind P (options.stop_on_error && not (is_empty_list s'.failed))
          (flags (stop_pass options outside (keys s'.pending) s')
            (stop_pass-keeps fails (keys s'.pending) s' h')).1
          (launch_pass-keeps launches (keys s'.pending) s' h'))

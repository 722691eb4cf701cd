-- ===== src/Client/Alone.antt =====
-- A worker runs one job at a time.
use satfarm.Prelude.{
  ℕ, ◌≡◌, ◌⊎◌, ◌≢◌, refl, sym, ap, subst, ◌==◌, List, [], ◌∷◌, ◌++◌, Option, none, some, inl, inr,
  Option-cases, Bool-cases, ==_refl,
}
use satfarm.Prelude.Int.{ℤ}
use satfarm.World.{ServerMessage, assign_job, cancel_job}
use satfarm.Client.{Assignment}
use satfarm.Client.Jobs.{
  RunningJob, Routine, Worker, running, start_behind, start_job, cancel, cancel_behind,
  cancel_running, receive_message, Step, received, solved, ended, Reach, here, after,
}

-- No job and no call; or one call, which solves the current job, or has returned from it.
pub data IsAlone (w : Worker) : Type 0 where
  idle : w.current_job ≡ none → w.solving ≡ [] → w.returned ≡ [] → IsAlone w
  busy :
      (r : Routine)
      → w.current_job ≡ some (running r.assignment r.context)
      → w.solving ≡ r ∷ []
      → w.returned ≡ []
      → IsAlone w
  leaving :
      (r : Routine)
      → w.current_job ≡ some (running r.assignment r.context)
      → w.solving ≡ []
      → w.returned ≡ r ∷ []
      → IsAlone w

start_job-IsAlone : (a : Assignment) (w : Worker) → IsAlone w → IsAlone (start_job a w)
unfolding start_job
start_job-IsAlone a w (idle e s r) =
    subst (λ o. IsAlone (start_behind o a w)) (sym e)
      (busy (record { assignment = a; context = w.next_context }) refl (rw s refl) r)
start_job-IsAlone a w (busy x e s r) =
    subst (λ o. IsAlone (start_behind o a w)) (sym e) (busy x e s r)
start_job-IsAlone a w (leaving x e s r) =
    subst (λ o. IsAlone (start_behind o a w)) (sym e) (leaving x e s r)

cancel-IsAlone : (k : ℕ) (w : Worker) → IsAlone w → IsAlone (cancel k w)
cancel-IsAlone k w (idle e s r) = idle e s r
cancel-IsAlone k w (busy x e s r) = busy x e s r
cancel-IsAlone k w (leaving x e s r) = leaving x e s r

cancel_behind-IsAlone :
    (o : Option RunningJob) (job : ℕ) (w : Worker) → IsAlone w → IsAlone (cancel_behind o job w)
cancel_behind-IsAlone none job w h = h
cancel_behind-IsAlone (some old) job w h = elim (Bool-cases (old.job_id == job)) [
  | inl same ↦ rw same (cancel-IsAlone old.context w h)
  | inr other ↦ rw other h
]

receive_message-IsAlone :
    (msg : ServerMessage) (w : Worker) → IsAlone w → IsAlone (receive_message msg w)
unfolding receive_message start_job cancel_running
receive_message-IsAlone (assign_job job shard cube) w h = start_job-IsAlone _ w h
receive_message-IsAlone (cancel_job job) w h = cancel_behind-IsAlone w.current_job job w h

not_empty : (before rest : List Routine) (r : Routine) → before ++ r ∷ rest ≢ []
not_empty [] rest r e = cc
not_empty (x ∷ xs) rest r e = cc

-- The only element of a list.
only :
    (before rest : List Routine) (r x : Routine)
    → x ∷ [] ≡ before ++ r ∷ rest
    → (x ≡ r) × (before ++ rest ≡ [])
only [] rest r x e = (cc, cc)
only (y ∷ ys) rest r x e = absurd (not_empty ys rest r (cc))

Step-IsAlone : {v w : Worker} → Step v w → IsAlone v → IsAlone w
Step-IsAlone (received msg v) h = receive_message-IsAlone msg v h
Step-IsAlone (solved before rest r out v e) (idle c s t) = absurd (not_empty before rest r (cc))
Step-IsAlone (solved before rest r out v e) (leaving x c s t) =
    absurd (not_empty before rest r (cc))
Step-IsAlone (solved before rest r out v e) (busy x c s t) =
    let (same, none_left) = only before rest r x (cc) in
    leaving r (rw (← same) c) none_left (rw t refl)
Step-IsAlone (ended before rest r v e) (idle c s t) = absurd (not_empty before rest r (cc))
Step-IsAlone (ended before rest r v e) (busy x c s t) = absurd (not_empty before rest r (cc))
Step-IsAlone (ended before rest r v e) (leaving x c s t) =
    let (same, none_left) = only before rest r x (cc) in
    idle (rw (c, same, ==_refl r.assignment.job_id, ==_refl r.assignment.shard_id) refl) s none_left

abbrev assignment : ℕ → ℕ → List ℤ → Assignment
assignment job shard cube = record { job_id = job; shard_id = shard; cube_literals = cube }

-- Whatever the server sends, in whatever order the calls of the worker run, and whatever they come to,
-- a worker has either no current job and no call that runs a job, or one of both, the current job
-- being that of the call; and while it has one, an assignment that it receives changes nothing.
pub Reach-IsAlone :
    (w : Worker)
    → Reach w
    → IsAlone w
      × ((w.current_job ≡ none)
          ⊎ ((job shard : ℕ) (cube : List ℤ) → receive_message (assign_job job shard cube) w ≡ w))
unfolding receive_message start_job
Reach-IsAlone w r = (
  alone w r,
  elim (Option-cases w.current_job) [
    | inl e ↦ inl e
    | inr (old, e) ↦
        inr (λ job shard cube. ap (λ o. start_behind o (assignment job shard cube) w) e)
  ],
)
  where
    alone : (w : Worker) → Reach w → IsAlone w
    alone w here = idle refl refl refl
    alone w (after {v} r s) = Step-IsAlone s (alone v r)

-- ===== src/Client/Jobs.antt =====
-- The jobs of a worker: its main loop, `startJob`, `cancelJob`, and the calls that run a job.
use satfarm.Prelude.{
  ℕ, ◌+◌, ◌==◌, ◌&&◌, Bool, true, false, List, [], ◌∷◌, ◌++◌, Option, none, some, if◌then◌else◌,
  ◌≡◌,
}
use satfarm.World.{ServerMessage, assign_job, cancel_job}
use satfarm.Scheduler.{JobResult}
use satfarm.Client.{Assignment, Outside, handle_assign_job}

-- `runningJob`, with the number of its context.
pub record RunningJob : Type 0 where
  pub job_id : ℕ
  pub shard_id : ℕ
  pub context : ℕ

-- A call `go func() {…}()` of `startJob`: what it solves, and in which context.
pub record Routine : Type 0 where
  pub assignment : Assignment
  pub context : ℕ

-- The worker: its current job, the contexts that are cancelled, the calls that run, those that have
-- returned from `handleAssignJob`, and what has been sent.
pub record Worker : Type 0 where
  pub current_job : Option RunningJob
  pub next_context : ℕ
  pub cancelled : ℕ → Bool
  pub solving : List Routine
  pub returned : List Routine
  pub sent : List JobResult

abbrev pub running : Assignment → ℕ → RunningJob
running a context = record { job_id = a.job_id; shard_id = a.shard_id; context = context }

-- `startJob`: a worker with a current job ignores the assignment.
abbrev pub start_behind : Option RunningJob → Assignment → Worker → Worker
start_behind (some old) a w = w
start_behind none a w = record w {
  current_job = some (running a w.next_context);
  next_context = w.next_context + 1;
  solving = record { assignment = a; context = w.next_context } ∷ w.solving;
}

unfoldable pub start_job : Assignment → Worker → Worker
start_job a w = start_behind w.current_job a w

abbrev pub cancel : ℕ → Worker → Worker
cancel context w = record w { cancelled = λ k. if k == context then true else w.cancelled k }

-- `cancelJob`
abbrev pub cancel_behind : Option RunningJob → ℕ → Worker → Worker
cancel_behind none job w = w
cancel_behind (some old) job w = if old.job_id == job then cancel old.context w else w

unfoldable pub cancel_running : ℕ → Worker → Worker
cancel_running job w = cancel_behind w.current_job job w

-- One round of the main loop.
unfoldable pub receive_message : ServerMessage → Worker → Worker
unfolding start_job cancel_running
receive_message (assign_job job shard cube) w =
    start_job (record { job_id = job; shard_id = shard; cube_literals = cube }) w
receive_message (cancel_job job) w = cancel_running job w

abbrev pub sent_by : Option JobResult → List JobResult
sent_by none = []
sent_by (some r) = r ∷ []

-- `currentJob` is cleared if it is still the job of the call.
abbrev pub is_same : Assignment → RunningJob → Bool
is_same a old = old.job_id == a.job_id && old.shard_id == a.shard_id

abbrev pub cleared : Assignment → Option RunningJob → Option RunningJob
cleared a none = none
cleared a (some old) = if is_same a old then none else some old

-- `handleAssignJob` returns, and has sent its result, if any.
abbrev pub returns : Routine → Outside → List Routine → Worker → Worker
returns r out rest w = record w {
  solving = rest;
  returned = r ∷ w.returned;
  sent = w.sent ++ sent_by (handle_assign_job out r.assignment);
}

-- Behind it: `currentJob` is cleared.
abbrev pub clears : Routine → List Routine → Worker → Worker
clears r rest w = record w { returned = rest; current_job = cleared r.assignment w.current_job }

abbrev pub new_worker : Worker
new_worker = record {
  current_job = none;
  next_context = 0;
  cancelled = λ k. false;
  solving = [];
  returned = [];
  sent = [];
}

pub data Step : Worker → Worker → Type 0 where
  received : (msg : ServerMessage) (w : Worker) → Step w (receive_message msg w)
  solved :
      (before after : List Routine) (r : Routine) (out : Outside) (w : Worker)
      → w.solving ≡ before ++ r ∷ after
      → Step w (returns r out (before ++ after) w)
  ended :
      (before after : List Routine) (r : Routine) (w : Worker)
      → w.returned ≡ before ++ r ∷ after
      → Step w (clears r (before ++ after) w)

pub data Reach : Worker → Type 0 where
  here : Reach new_worker
  after : {v w : Worker} → Reach v → Step v w → Reach w

-- ===== src/Backup/Deletion/Rounds.antt =====
-- Rounds of a deletion: reconciles of internal/controller/backup.go, and between them a cluster that
-- does its work.
use openclaw_operator.Prelude.{
  ℕ, zero, suc, String, ◌≡◌, refl, inl, inr, true, none, some, [], ◌∷◌, arith, ok, err, Result,
  if◌then◌else◌, eq_iff, Bool-cases, Option,
}
use openclaw_operator.GoMap.{GoMap, get}
use openclaw_operator.AutoUpdate.{World, Job, job_complete, JobConditionType, Error}
use openclaw_operator.AutoUpdate.Api.{Action}
use openclaw_operator.AutoUpdate.Api.Triples.{Post}
use openclaw_operator.AutoUpdate.S3.{is_job_finished}
use openclaw_operator.AutoUpdate.Backup.{is_scaled_up}
use openclaw_operator.Backup.Deletion.{backup_job_name, reconcile_delete_with_backup}
use openclaw_operator.Backup.Deletion.Progress.{
  is_gone, Gone, IsServed, Down, Settled, Started, Complete, Makes, Never, Access,
}
use openclaw_operator.Backup.Deletion.Progress.Stages.{
  Ahead, Stopping, reconcile-Stopping, reconcile-Ahead, reconcile-Gone,
}

-- A Job that is still running completes; one that has finished stays as it is.
abbrev pub settled : Option JobConditionType → Job → Job
settled none job = record job { conditions = record { type = job_complete; is_true = true } ∷ [] }
settled (some t) job = job

abbrev pub completed : Job → Job
completed job = settled (is_job_finished job.conditions) job

unfoldable pub finish_jobs : GoMap Job → GoMap Job
finish_jobs [] = []
finish_jobs ((name, job) ∷ jobs) = (name, completed job) ∷ finish_jobs jobs

-- The cluster: the pods of a StatefulSet that is scaled down end, and the Jobs that run complete.
unfoldable pub settle : World → World
settle w = record w {
  pods = (elim w.sts [ none ↦ 0 | some sts ↦ if is_scaled_up sts.replicas then w.pods else 0 ]);
  jobs = finish_jobs w.jobs;
}

-- Reconciles until the object is gone, at most so many.
unfoldable pub rounds : ℕ → World → World
rounds zero w = w
rounds (suc n) w =
    let rest = rounds n (settle (reconcile_delete_with_backup w).1) in if is_gone w then w else rest

get-finish_jobs :
    (name : String) (jobs : GoMap Job)
    → get name (finish_jobs jobs)
      ≡ (elim (get name jobs) [ none ↦ none | some job ↦ some (completed job) ])
unfolding get finish_jobs
get-finish_jobs name [] = refl
get-finish_jobs name ((n, job) ∷ jobs) = ground (arith, get-finish_jobs name jobs, eq_iff n name)

rounds-Gone : (n : ℕ) (w : World) → Gone w → Gone (rounds n w)
unfolding rounds Gone
rounds-Gone zero w h = h
rounds-Gone (suc n) w h = rw h h

made :
    {A : Type 0} (P Q : World → Type 0) (m : Action A) (w : World) → Makes P m Q → P w → Q (m w).1
unfolding Makes Never
made {A} P Q m w t p = by (m w).0 (m w).1 (t.at w p)
  where
    by : (r : Result Error A) (w : World) → Post (λ a. Q) Never r w → Q w
    by (ok a) w h = h
    by (err e) w h = absurd h

-- One more round, by whether the object is gone already.
rounds_step :
    (n : ℕ) (w : World)
    → Gone (rounds n (settle (reconcile_delete_with_backup w).1))
    → Gone (rounds (suc n) w)
unfolding rounds Gone
rounds_step n w h = elim (Bool-cases (is_gone w)) [ inl e ↦ rw e e | inr e ↦ rw e h ]

settle-Gone : (w : World) → Gone w → Gone (settle w)
unfolding Gone settle
settle-Gone w h = h

module _ (access : Access) where
  settle-Settled : (w : World) → Down access w → Settled access (settle w)
  unfolding settle is_job_finished
  settle-Settled w h = ground (arith, h, get-finish_jobs (backup_job_name w.inst) w.jobs)

  settle-Complete : (w : World) → Started access w → Complete access (settle w)
  unfolding settle is_job_finished
  settle-Complete w h = ground (arith, h, get-finish_jobs (backup_job_name w.inst) w.jobs)

  abbrev next : World → World
  next w = (reconcile_delete_with_backup w).1

  last_round : (n : ℕ) (w : World) → Complete access w → Gone (rounds (suc n) w)
  last_round n w h =
      let gone =
        made (Complete access) Gone reconcile_delete_with_backup w (reconcile-Gone access) h in
      rounds_step n w (rounds-Gone n (settle (next w)) (settle-Gone (next w) gone))

  middle_round : (n : ℕ) (w : World) → Settled access w → Gone (rounds (suc (suc n)) w)
  unfolding Ahead
  middle_round n w h = rounds_step (suc n) w (
      by (
        made (Settled access) (Ahead access) reconcile_delete_with_backup w (reconcile-Ahead access)
          h))
    where
      by : Ahead access (next w) → Gone (rounds (suc n) (settle (next w)))
      by (inl gone) = rounds-Gone (suc n) (settle (next w)) (settle-Gone (next w) gone)
      by (inr started) = last_round n (settle (next w)) (settle-Complete (next w) started)

  first_round : (n : ℕ) (w : World) → IsServed access w → Gone (rounds (suc (suc (suc n))) w)
  unfolding Stopping
  first_round n w h = rounds_step (suc (suc n)) w (
      by (
        made (IsServed access) (Stopping access) reconcile_delete_with_backup w
          (reconcile-Stopping access) h))
    where
      by : Stopping access (next w) → Gone (rounds (suc (suc n)) (settle (next w)))
      by (inl gone) = rounds-Gone (suc (suc n)) (settle (next w)) (settle-Gone (next w) gone)
      by (inr down) = middle_round n (settle (next w)) (settle-Settled (next w) down)

-- A deletion ends: where the server accepts every request, the controller reads the current object
-- and the credentials are complete, the finalizer is gone after at most three reconciles, whatever
-- else the state is in which the deletion finds the instance, if no backup Job of it has failed and
-- if between two reconciles the cluster ends the pods of a StatefulSet that is scaled down and
-- completes the Jobs that run.
pub rounds-is_gone : (access : Access) (w : World) → IsServed access w → is_gone (rounds 3 w) ≡ true
unfolding Gone
rounds-is_gone access w h = first_round access 0 w h

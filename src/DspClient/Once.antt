-- ===== src/DspClient/Once.antt =====
-- A PendingDspJob and what its calls do with what it owns.
use neoruntime_sdks.Media.Once.{logged}
use neoruntime_sdks.DspClient.Given.{all_given, all_retired, release_owned-Gave}
use neoruntime_sdks.Base.{
  ap, ◌∙◌, ◌≡◌, refl, List, [], ◌∷◌, Option, none, some, Bool, true, false, ◌||◌, if◌then◌else◌,
}
use neoruntime_sdks.DspClient.{DspFailure, DspClient}
use neoruntime_sdks.DspClient.Rpc.{Answer, completes, pends, throws}
use neoruntime_sdks.DspClient.Jobs.{
  JobState, pending, is_done, job_released, Ownee, PendingDspJob, next_answer, done_on, done_in,
  done, raise_error, waited, wait_in, wait_result, release_owned, release_in, release_job,
}

-- A call on the handle of a job; the destructor is a release.
pub data JobCall : Type 0 where
  polls waits_result releases_job : JobCall

unfoldable pub call_job : JobCall → PendingDspJob × DspClient → PendingDspJob × DspClient
unfolding done wait_result release_job
call_job polls (job, c) = ((done job).1, c)
call_job waits_result (job, c) = ((wait_result job).1, c)
call_job releases_job (job, c) = release_job job c

unfoldable pub call_all : List JobCall → PendingDspJob × DspClient → PendingDspJob × DspClient
unfolding call_job
call_all [] s = s
call_all (a ∷ rest) s = call_all rest (call_job a s)

abbrev pub is_release : JobCall → Bool
is_release polls = false
is_release waits_result = false
is_release releases_job = true

abbrev pub any_release : List JobCall → Bool
any_release [] = false
any_release (a ∷ rest) = is_release a || any_release rest

abbrev pub is_gone : JobState → Bool
is_gone pending = false
is_gone is_done = false
is_gone job_released = true

-- The job is not released, and owns `os`.
abbrev Keeps : List Ownee → PendingDspJob → Type 0
Keeps os job = (is_gone job.state ≡ false) × (job.owns ≡ os)

module _ (os : List Ownee) where
  done_on-Keeps : (a : Answer) (job : PendingDspJob) → Keeps os job → Keeps os (done_on (a, job)).1
  done_on-Keeps completes job (k, e) = (refl, e)
  done_on-Keeps pends job k = k
  done_on-Keeps (throws x) job (k, e) = (refl, e)

  done_in-Keeps : (s : JobState) (job : PendingDspJob) → Keeps os job → Keeps os (done_in s job).1
  done_in-Keeps pending job k =
      done_on-Keeps (next_answer job.answers).0
        (record job { answers = (next_answer job.answers).1 }) k
  done_in-Keeps is_done job k = k
  done_in-Keeps job_released job k = k

  raise_error-Keeps :
      (o : Option DspFailure) (job : PendingDspJob) → Keeps os job → Keeps os (raise_error o job).1
  raise_error-Keeps none job k = k
  raise_error-Keeps (some e) job k = k

  waited-Keeps : (a : Answer) (job : PendingDspJob) → Keeps os job → Keeps os (waited (a, job)).1
  waited-Keeps completes job (k, e) =
      raise_error-Keeps job.error (record job { state = is_done }) (refl, e)
  waited-Keeps pends job k = k
  waited-Keeps (throws x) job k = k

  wait_in-Keeps : (s : JobState) (job : PendingDspJob) → Keeps os job → Keeps os (wait_in s job).1
  wait_in-Keeps pending job k =
      waited-Keeps (next_answer job.answers).0
        (record job { answers = (next_answer job.answers).1 }) k
  wait_in-Keeps is_done job k = raise_error-Keeps job.error job k
  wait_in-Keeps job_released job k = k

  -- After its release a job changes nothing.
  abbrev Gone : DspClient → PendingDspJob × DspClient → Type 0
  Gone c (job, c') = (job.state ≡ job_released) × (c' ≡ c)

  call_job-Gone :
      (c : DspClient) (a : JobCall) (job : PendingDspJob) (c' : DspClient)
      → Gone c (job, c')
      → Gone c (call_job a (job, c'))
  unfolding call_job done wait_result release_job
  call_job-Gone c polls job c' (s, e) = simp s (refl, e)
  call_job-Gone c waits_result job c' (s, e) = simp s (refl, e)
  call_job-Gone c releases_job job c' (s, e) = simp s (refl, e)

  call_all-Gone :
      (c : DspClient) (calls : List JobCall) (job : PendingDspJob) (c' : DspClient)
      → Gone c (job, c')
      → Gone c (call_all calls (job, c'))
  unfolding call_all
  call_all-Gone c [] job c' g = g
  call_all-Gone c (a ∷ rest) job c' g =
      call_all-Gone c rest (call_job a (job, c')).0 (call_job a (job, c')).1
        (call_job-Gone c a job c' g)

  release_in-Gone :
      (s : JobState) (job : PendingDspJob) (c : DspClient)
      → is_gone s ≡ false
      → job.owns ≡ os
      → Gone (release_owned os c) (release_in s job c)
  release_in-Gone pending job c k e = rw e (refl, refl)
  release_in-Gone is_done job c k e = rw e (refl, refl)
  release_in-Gone job_released job c k e = absurd cc

  released_once :
      (calls : List JobCall) (job : PendingDspJob) (c : DspClient)
      → Keeps os job
      → (call_all calls (job, c)).1 ≡ (if any_release calls then release_owned os c else c)
  unfolding call_all call_job done wait_result release_job
  released_once [] job c k = refl
  released_once (polls ∷ rest) job c k =
      released_once rest (done_in job.state job).1 c (done_in-Keeps job.state job k)
  released_once (waits_result ∷ rest) job c k =
      released_once rest (wait_in job.state job).1 c (wait_in-Keeps job.state job k)
  released_once (releases_job ∷ rest) job c k =
      (call_all-Gone (release_owned os c) rest (release_in job.state job c).0
        (release_in job.state job c).1 (release_in-Gone job.state job c k.0 k.1)).1

-- Whatever is called on the handle of a job that has not been released, in any order and whatever
-- the daemon answers. If no call is a release, the client's calls of the kernel and its pools are as
-- they were. Otherwise the calls made are, in the order of what the job owns: for a pool that has not
-- been released, a release message for each of its ids, and a close for each of its planes; for an
-- import that is not done, a release message for its id; the messages only if there is a socket. And
-- the pools that the job owns are then released.
pub job_releases_once :
    (calls : List JobCall) (job : PendingDspJob) (c : DspClient)
    → is_gone job.state ≡ false
    → ((call_all calls (job, c)).1.log
        ≡ (if any_release calls then logged (all_given c.sock c.pools job.owns) c.log else c.log))
      × ((call_all calls (job, c)).1.pools
          ≡ (if any_release calls then all_retired c.pools job.owns else c.pools))
job_releases_once calls job c k =
    by_release (any_release calls) (call_all calls (job, c)).1
      (released_once job.owns calls job c (k, refl))
  where
    by_release :
        (b : Bool) (c' : DspClient)
        → c' ≡ (if b then release_owned job.owns c else c)
        → (c'.log ≡ (if b then logged (all_given c.sock c.pools job.owns) c.log else c.log))
          × (c'.pools ≡ (if b then all_retired c.pools job.owns else c.pools))
    by_release true c' e =
        let g = release_owned-Gave job.owns c in
        (ap (λ (d : DspClient). d.log) e ∙ g.0, ap (λ (d : DspClient). d.pools) e ∙ g.1)
    by_release false c' e = (ap (λ (d : DspClient). d.log) e, ap (λ (d : DspClient). d.pools) e)

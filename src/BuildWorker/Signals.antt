-- ===== src/BuildWorker/Signals.antt =====
-- src/build_worker.rs: the signals of one round of the worker, by the outcomes of its jobs.
use ltsearch.Common.{ℕ, suc, is_err, if◌then◌else◌, String, List, [], ◌∷◌, ◌++◌, ok, err, Result}
use ltsearch.Queue.{BuildJob}
use ltsearch.BuildWorker.{BuildJobSource}

pub data Signal : Type 0 where
  acked : BuildJob → Signal
  nacked : BuildJob → String → Signal

-- The signal that an outcome calls for.
abbrev pub signal_for : BuildJob → Result String ℕ → Signal
signal_for job (ok version) = acked job
signal_for job (err e) = nacked job e

-- A source that hands out the jobs given and records the signals; `fails` says which signals it reports
-- as failed.
abbrev pub recorder :
    List BuildJob → (Signal → Result String (Unit {0})) → BuildJobSource (List Signal)
recorder jobs answer = record {
  receive = λ log. (ok jobs, log);
  ack = λ job log. (answer (acked job), log ++ acked job ∷ []);
  nack = λ job e log. (answer (nacked job e), log ++ nacked job e ∷ []);
}

unfoldable pub went_through : (Signal → Result String (Unit {0})) → List Signal → ℕ
went_through answer [] = 0
went_through answer (sent ∷ signals) =
    let rest = went_through answer signals in if is_err (answer sent) then rest else suc rest

module _ {S : Type 0} (process : String → S → Result String ℕ × S) where
  -- The jobs one after the other, each over what the one before has left.
  unfoldable pub outcomes : List BuildJob → S → List Signal
  outcomes [] s = []
  outcomes (job ∷ jobs) s = let (r, s') = process job.body s in signal_for job r ∷ outcomes jobs s'

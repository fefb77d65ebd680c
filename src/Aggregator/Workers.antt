-- ===== src/Aggregator/Workers.antt =====
-- aggregator/cron/worker.go and updater.go: the workers, one for each cluster item, which every update
-- brings in line with the items of the database. A worker stands for its goroutine and its ticker.
pub mod Updated
use ref_falcon.Prelude.{
  List, [], ◌∷◌, Option, none, some, if◌then◌else◌, Run, ok, err, panic, ◌>>=◌,
}
use ref_falcon.Prelude.Int.{ℤ, pos, leb_ℤ, wrap64, ◌*ℤ◌}
use ref_falcon.Prelude.Text.{String, lookup, insert, delete}
use ref_falcon.Aggregator.Run.{Cluster}

-- `Ticker` has the duration of a tick in nanoseconds; a worker with an open `Quit` is in the map.
pub record Worker : Type 0 where
  pub ticker : ℤ
  pub cluster_item : Cluster

abbrev second : ℤ
second = pos 1000000000

-- `time.NewTicker` panics unless the duration is positive.
unfoldable pub new_worker : Cluster → Run Worker
new_worker ci =
    let d = wrap64 (ci.step *ℤ second) in
    if leb_ℤ d (pos 0) then panic else ok (record { ticker = d; cluster_item = ci })

-- The keys whose workers are dropped.
unfoldable pub no_use : List (String × Cluster) → List (String × Worker) → List String
no_use m [] = []
no_use m ((key, worker) ∷ workers) =
    let del = no_use m workers in elim (lookup key m) [ none ↦ key ∷ del | some item ↦ del ]

unfoldable pub delete_keys : List String → List (String × Worker) → List (String × Worker)
delete_keys [] workers = workers
delete_keys (key ∷ del) workers = delete_keys del (delete key workers)

unfoldable pub delete_no_use_worker :
    List (String × Cluster) → List (String × Worker) → List (String × Worker)
unfolding no_use delete_keys
delete_no_use_worker m workers = delete_keys (no_use m workers) workers

-- What the loop of createWorkerIfNeed does at one item.
unfoldable pub create_one :
    Option Worker → String → Cluster → List (String × Worker) → Run (List (String × Worker))
unfolding new_worker
create_one (some known) key item workers = ok workers
create_one none key item workers =
    if leb_ℤ item.step (pos 0)
    then ok workers
    else (new_worker item >>= λ worker. ok (insert key worker workers))

unfoldable pub create_worker_if_need :
    List (String × Cluster) → List (String × Worker) → Run (List (String × Worker))
unfolding create_one
create_worker_if_need [] workers = ok workers
create_worker_if_need ((key, item) ∷ m) workers = do
  workers' ← create_one (lookup key workers) key item workers
  create_worker_if_need m workers'

-- `none` is an error of the database, after which the workers stay.
unfoldable pub update_items :
    Option (List (String × Cluster)) → List (String × Worker) → Run (List (String × Worker))
unfolding delete_no_use_worker create_worker_if_need
update_items none workers = ok workers
update_items (some items) workers = create_worker_if_need items (delete_no_use_worker items workers)

-- ===== src/Transfer/Push.antt =====
-- transfer/sender/sender.go: the pushes into the send queues, and RecvMetricValues as a whole. The
-- ring of nodes, the primary key and the limited list with its PushFront are outside libraries:
-- parameters.
pub mod Delivered
pub mod Routed
use ref_falcon.Prelude.{
  ℕ, zero, suc, Bool, true, false, List, [], ◌∷◌, Option, none, some, if◌then◌else◌, length, Run,
  ok, err, panic, must, ◌>>=◌,
}
use ref_falcon.Prelude.Int.{ℤ}
use ref_falcon.Prelude.Text.{String, str_append, lookup, insert}
use ref_falcon.Judge.Types.{Tags, JudgeItem}
use ref_falcon.Judge.Alarm.{is_listed}
use ref_falcon.Float64.{Float64}
use ref_falcon.Transfer.Types.{MetricValue, MetaData, GraphItem, TsdbItem}
use ref_falcon.Transfer.Convert.{convert_2_judge_item, convert_2_graph_item, convert_2_tsdb_item}
use ref_falcon.Transfer.Receive.{recv_loop}

-- What is configured, and the code outside: `none` is an error of the ring, and a push that is
-- refused.
pub record Cluster (V : Type 0) : Type 1 where
  pub min_step : ℤ
  pub ignore_self_metrics : List String
  pub cluster_list : List (String × List String)
  pub graph_enabled : Bool
  pub judge_enabled : Bool
  pub tsdb_enabled : Bool
  pub pk : MetaData V → String
  pub judge_node : String → Option String
  pub graph_node : String → Option String
  pub Queue : Type 0 → Type 0
  pub push_front : {A : Type 0} → A → Queue A → Option (Queue A)

-- The queues by node, and the counts of what was dropped.
pub record Queues {V : Type 0} (c : Cluster V) : Type 0 where
  pub judge_queues : List (String × c.Queue (JudgeItem V))
  pub graph_queues : List (String × c.Queue (GraphItem V))
  pub tsdb_queue : c.Queue (TsdbItem V)
  pub judge_drops : ℕ
  pub graph_drops : ℕ
  pub tsdb_drops : ℕ

module _ {V : Type 0} (c : Cluster V) where
  -- One item of Push2JudgeSendQueue; a node without a queue is a nil pointer.
  unfoldable pub push_judge : MetaData V → Queues c → Run (Queues c)
  push_judge item st = elim (c.judge_node (c.pk item)) [
    | none ↦ ok st
    | some node ↦ do
      q ← must (lookup node st.judge_queues)
      elim (c.push_front (convert_2_judge_item c.min_step item) q) [
        | none ↦ ok (record st { judge_drops = suc st.judge_drops })
        | some q' ↦ ok (record st { judge_queues = insert node q' st.judge_queues })
      ]
  ]

  unfoldable pub push_2_judge_send_queue : List (MetaData V) → Queues c → Run (Queues c)
  unfolding push_judge
  push_2_judge_send_queue [] st = ok st
  push_2_judge_send_queue (item ∷ items) st = do
    st' ← push_judge item st
    push_2_judge_send_queue items st'

  -- The loop over the addresses of a node; the result has errCnt.
  unfoldable pub push_addrs : GraphItem V → String → List String → ℕ → Queues c → Run (ℕ × Queues c)
  push_addrs item node [] err_cnt st = ok (err_cnt, st)
  push_addrs item node (addr ∷ addrs) err_cnt st = do
    q ← must (lookup (str_append node addr) st.graph_queues)
    elim (c.push_front item q) [
      | none ↦ push_addrs item node addrs (suc err_cnt) st
      | some q' ↦
          push_addrs item node addrs err_cnt
            (record st { graph_queues = insert (str_append node addr) q' st.graph_queues })
    ]

  abbrev pub count_drop : ℕ × Queues c → Queues c
  count_drop (zero, st) = st
  count_drop (suc n, st) = record st { graph_drops = suc st.graph_drops }

  -- One item of Push2GraphSendQueue; the trace and the filter for debugging are left out.
  unfoldable pub push_graph : MetaData V → Queues c → Run (Queues c)
  unfolding push_addrs
  push_graph item st = elim (convert_2_graph_item c.min_step item) [
    | err ↦ ok st
    | panic ↦ panic
    | ok graph_item ↦
        if is_listed graph_item.metric c.ignore_self_metrics
        then ok st
        else elim (c.graph_node (c.pk item)) [
          | none ↦ ok st
          | some node ↦ do
            addrs ← must (lookup node c.cluster_list)
            r ← push_addrs graph_item node addrs 0 st
            ok (count_drop r)
        ]
  ]

  unfoldable pub push_2_graph_send_queue : List (MetaData V) → Queues c → Run (Queues c)
  unfolding push_graph
  push_2_graph_send_queue [] st = ok st
  push_2_graph_send_queue (item ∷ items) st = do
    st' ← push_graph item st
    push_2_graph_send_queue items st'

  unfoldable pub push_2_tsdb_send_queue : List (MetaData V) → Queues c → Queues c
  push_2_tsdb_send_queue [] st = st
  push_2_tsdb_send_queue (item ∷ items) st =
      elim (c.push_front (convert_2_tsdb_item item) st.tsdb_queue) [
        | none ↦ push_2_tsdb_send_queue items (record st { tsdb_drops = suc st.tsdb_drops })
        | some q ↦ push_2_tsdb_send_queue items (record st { tsdb_queue = q })
      ]

  -- RecvMetricValues: `reply.Invalid`, `reply.Total` and the queues; the counters of /statistics
  -- and the latency are left out.
  unfoldable pub recv_metric_values :
      ⦃fl : Float64 V⦄
      → (String → Option V)
      → (String → Tags)
      → ℤ
      → List (Option (MetricValue V))
      → Queues c
      → Run (ℕ × ℕ × Queues c)
  unfolding push_2_judge_send_queue push_2_graph_send_queue push_2_tsdb_send_queue
  recv_metric_values parse_float dicted now args st = do
    let r = recv_loop parse_float dicted now args [] 0
    st ← if c.graph_enabled then push_2_graph_send_queue r.0 st else ok st
    st ← if c.judge_enabled then push_2_judge_send_queue r.0 st else ok st
    ok (r.1, length args, if c.tsdb_enabled then push_2_tsdb_send_queue r.0 st else st)

-- The retry loop of forward2JudgeTask and forward2GraphTask: `call i` is whether attempt i is
-- answered; the result is sendOk and the number of calls.
unfoldable pub send_attempts : (ℕ → Bool) → ℕ → ℕ → Bool × ℕ
send_attempts call zero i = (false, i)
send_attempts call (suc left) i =
    let rest = send_attempts call left (suc i) in if call i then (true, suc i) else rest

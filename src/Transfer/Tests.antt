-- ===== src/Transfer/Tests.antt =====
-- The theorems on transfer, applied to one value and one node of each kind.
use ref_falcon.Prelude.{
  ◌+◌, ◌*◌, ◌≡◌, refl, inl, true, false, List, [], ◌∷◌, length, Option, none, some, arith, Returns,
}
use ref_falcon.Prelude.Int.{ℤ, pos, ◌*ℤ◌, IsInt64}
use ref_falcon.Prelude.Text.{String, lookup}
use ref_falcon.Float64.{whole}
use ref_falcon.Judge.Types.{Tags}
use ref_falcon.Transfer.Types.{text, MetricValue, MetaData}
use ref_falcon.Transfer.Convert.{convert_2_graph_item}
use ref_falcon.Transfer.Convert.Aligned.{GoodGraphItem, convert_2_graph_item-Good}
use ref_falcon.Transfer.Receive.{recv_loop}
use ref_falcon.Transfer.Receive.Valid.{AllGood, recv_loop_lem}
use ref_falcon.Transfer.Push.{Cluster, Queues, recv_metric_values}
use ref_falcon.Transfer.Push.Delivered.{Served}
use ref_falcon.Transfer.Push.Routed.{Reply, recv_metric_values-Served}

abbrev load : MetaData ℤ
load = record {
  metric = "load.1min";
  endpoint = "host";
  timestamp = pos 125;
  step = pos 60;
  value = pos 3;
  counter_type = "GAUGE";
  tags = [];
}

two_minutes : IsInt64 (pos 60 *ℤ pos 2)
unfolding ref_falcon.Prelude.Int.◌*ℤ◌
two_minutes = (omega arith, omega arith)

convert_2_graph_item-Good_example :
    Returns (GoodGraphItem (pos 30) load) (convert_2_graph_item (pos 30) load)
convert_2_graph_item-Good_example = convert_2_graph_item-Good (pos 30) load (inl refl) two_minutes

abbrev value : MetricValue ℤ
value = record {
  endpoint = "host";
  metric = "load.1min";
  value = text "3";
  step = pos 60;
  counter_type = "GAUGE";
  tags = "";
  timestamp = pos 125;
}

abbrev parse : String → Option ℤ
parse s = some (pos 3)

abbrev dicted : String → Tags
dicted s = []

abbrev args : List (Option (MetricValue ℤ))
args = some value ∷ none ∷ []

recv_loop_lem_example :
    AllGood (recv_loop parse dicted (pos 200) args [] 0).0
    × (length (recv_loop parse dicted (pos 200) args [] 0).0
          + (recv_loop parse dicted (pos 200) args [] 0).1
        ≡ length args)
recv_loop_lem_example = recv_loop_lem parse dicted (pos 200) args (omega arith)

-- Lists of any length stand for the limited ones.
abbrev cluster : Cluster ℤ
cluster = record {
  min_step = pos 30;
  ignore_self_metrics = [];
  cluster_list = ("graph-00", "a" ∷ []) ∷ [];
  graph_enabled = true;
  judge_enabled = true;
  tsdb_enabled = false;
  pk = λ d. "key";
  judge_node = λ p. some "judge-00";
  graph_node = λ p. some "graph-00";
  Queue = List;
  push_front = λ x q. some (x ∷ q);
}

abbrev queues : Queues cluster
queues = record {
  judge_queues = ("judge-00", []) ∷ [];
  graph_queues = ("graph-00a", []) ∷ [];
  tsdb_queue = [];
  judge_drops = 0;
  graph_drops = 0;
  tsdb_drops = 0;
}

queues-Served : Served cluster queues
unfolding lookup
queues-Served p = (([], refl), ("a" ∷ [], refl, (([], refl), tt)))

recv_metric_values-Served_example :
    Returns
      (Reply cluster parse dicted (pos 200) args queues)
      (recv_metric_values cluster parse dicted (pos 200) args queues)
recv_metric_values-Served_example =
    recv_metric_values-Served cluster parse dicted (pos 200) args queues (omega arith) queues-Served

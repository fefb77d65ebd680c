-- ===== src/Graph/Tests/Store.antt =====
-- The theorems on the store, on receiving and on flushing, applied.
use ref_falcon.Prelude.{
  ℕ, zero, suc, ◌≡◌, refl, sym, subst, true, false, List, [], ◌∷◌, map, take, get_elem?, replicate,
  some, none, ok, Returns, arith,
}
use ref_falcon.Prelude.Int.{ℤ, pos}
use ref_falcon.Prelude.Text.{String, codes, lookup}
use ref_falcon.Judge.Rules.Safe.{Each}
use ref_falcon.Transfer.Types.{GraphItem}
use ref_falcon.Graph.Table
use ref_falcon.Graph.Table.{Bucket, GraphItemMap, graph_items}
use ref_falcon.Graph.Table.View.{WellFormed, view, view-graph_items}
use ref_falcon.Graph.Table.Effects.{waiting}
use ref_falcon.Graph.Table.Promise.{Call, push_front, pop_all, first, run_calls, promises}
use ref_falcon.Graph.Table.Answers.{KeptAll, run_calls-KeptAll, graph_items-Tracks}
use ref_falcon.Graph.History.{Histories}
use ref_falcon.Graph.History.Recent.{Falling, Lawful}
use ref_falcon.Graph.Index.{Outside}
use ref_falcon.Graph.Receive.{Memory, handle_items}
use ref_falcon.Graph.Receive.Rising.{AllFall, Healthy, handle_items-Healthy}
use ref_falcon.Graph.Keys.{split_rrd_cache_key}
use ref_falcon.Graph.Flush.{Settings, Disk, flush_all, sync_disk}
use ref_falcon.Graph.Flush.Flushable.{Flushable, Nameable, names}
use ref_falcon.Graph.Flush.Fate.{Saved, Fate}
use ref_falcon.Graph.Flush.All.{flush_all-Fate, sync_disk-Saved}

abbrev at : ℕ → GraphItem ℤ
at t = record {
  endpoint = "host";
  metric = "load";
  tags = [];
  value = pos 3;
  timestamp = pos t;
  ds_type = "GAUGE";
  step = pos 60;
  heartbeat = pos 120;
  min = "U";
  max = "U";
}

abbrev calls : List (Call ℤ)
calls =
    push_front "k" (at 60) true false
    ∷ push_front "k" (at 120) true false
    ∷ first "k"
    ∷ pop_all "k"
    ∷ []

run_calls-KeptAll_example :
    Returns (KeptAll (promises calls (λ k. none))) (run_calls calls graph_items)
run_calls-KeptAll_example = run_calls-KeptAll calls graph_items (λ k. none) graph_items-Tracks

-- A limited list of three.
abbrev lists : Histories ℤ
lists = record {
  Queue = List (GraphItem ℤ);
  new_list = λ n. [];
  push_front_violently = λ v q. v ∷ take 2 q;
  front = λ q. get_elem? q 0;
  front_all = λ q. map some q;
}

lists-Lawful : Lawful lists (λ q. q)
lists-Lawful = record {
  holds = λ q. refl;
  in_front = λ q. refl;
  fresh = λ n. refl;
  room = λ q. 2;
  push = λ v q. refl;
}

abbrev outside : Outside ℤ
outside = record {
  storage = codes "/data";
  migrating = false;
  uuid = λ i. "u";
  checksum = λ i. "9e";
  counter = λ i. i.metric;
  is_print = λ c. true;
  is_rrd_file_exist = λ f. false;
}

abbrev nothing_yet : Memory lists
nothing_yet = record {
  graph_items = graph_items;
  indices = record { indexed_item_cache = []; un_indexed_item_cache = [] };
  history_cache = [];
}

graph_items-AllFall : AllFall (graph_items {V = ℤ})
graph_items-AllFall k = subst (λ o. Falling (waiting o)) (sym (view-graph_items k)) tt

nothing_yet-Healthy : Healthy lists outside (λ q. q) lists-Lawful nothing_yet
unfolding lookup
nothing_yet-Healthy = record {
  well_formed = graph_items-Tracks.well_formed;
  falling = graph_items-AllFall;
  history = λ k. tt;
}

handle_items-Healthy_example :
    Returns
      (Healthy lists outside (λ q. q) lists-Lawful)
      (handle_items lists outside (some (at 60) ∷ none ∷ some (at 120) ∷ []) nothing_yet)
handle_items-Healthy_example =
    handle_items-Healthy lists outside (λ q. q) lists-Lawful
      (some (at 60) ∷ none ∷ some (at 120) ∷ []) nothing_yet (omega arith, (tt, (omega arith, tt)))
      nothing_yet-Healthy

-- Ten buckets that all have one key with six items.
abbrev key : String
key = "9e_GAUGE_60"

abbrev six : List (GraphItem ℤ)
six = at 360 ∷ at 300 ∷ at 240 ∷ at 180 ∷ at 120 ∷ at 60 ∷ []

abbrev one_key : Bucket ℤ
one_key = (key, record { flag = 0; items = six }) ∷ []

abbrev store : GraphItemMap ℤ
store = record { a = replicate 10 one_key; size = 10 }

store-WellFormed : WellFormed store
store-WellFormed = record { sized = refl; positive = omega arith; word = omega arith }

key-Splits : split_rrd_cache_key (codes key) ≡ ok (codes "9e", codes "GAUGE", pos 60)
unfolding split_rrd_cache_key ref_falcon.Judge.Parse.split ref_falcon.Graph.Keys.parse_int_32
    ref_falcon.Judge.Parse.unsigned ref_falcon.Judge.Parse.digits
key-Splits = refl

store-view : waiting (view store key) ≡ six
unfolding view lookup ref_falcon.Graph.Table.hash_key ref_falcon.Graph.Crc.checksum_ieee
store-view = refl

replicated : {A : Type 0} (n i : ℕ) (x y : A) → get_elem? (replicate n x) i ≡ some y → x ≡ y
replicated zero i x y e = cc
replicated (suc n) zero x y e = cc
replicated (suc n) (suc i) x y e = replicated n i x y e

key-Nameable : Nameable key
key-Nameable = rw key-Splits (omega arith)

store-Flushable : Flushable store
store-Flushable = record {
  well_formed = store-WellFormed;
  nameable = λ i b e.
      subst (λ c. Each Nameable (names c)) (replicated 10 i one_key b e) (key-Nameable, tt);
}

abbrev settings : Settings ℤ
settings = record { storage = codes "/data"; migrating = false; node = λ i. none }

abbrev disk : Disk ℤ
disk = record { graph_items = store; flushed = []; pulled = [] }

flush_all-Fate_example :
    Returns (Fate settings key (waiting (view store key))) (flush_all settings (pos 400) false disk)
flush_all-Fate_example =
    flush_all-Fate settings key (pos 400) false disk (omega arith) store-Flushable

sync_disk-Saved_example :
    Returns
      (Saved settings key (waiting (view store key)))
      (sync_disk settings (λ i. pos 400) store.size 0 disk)
sync_disk-Saved_example =
    sync_disk-Saved settings key (λ i. pos 400) disk store-Flushable refl
      ((codes "9e", codes "GAUGE", pos 60), key-Splits) (rw store-view (omega arith))

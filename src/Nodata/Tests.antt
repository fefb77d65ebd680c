-- ===== src/Nodata/Tests.antt =====
-- The theorems on nodata, applied to one counter.
use ref_falcon.Prelude.{ℕ, ◌≡◌, refl, List, [], ◌∷◌, length, Option, none, some}
use ref_falcon.Prelude.Int.{ℤ, pos}
use ref_falcon.Prelude.Text.{String, lookup}
use ref_falcon.Judge.Types.{Tags}
use ref_falcon.Float64.{whole}
use ref_falcon.Nodata.Judging.{NdConfig, DataItem, State, judge_key}
use ref_falcon.Nodata.Judging.Status.{ChangeAt, judge_key-Change}
use ref_falcon.Nodata.Sending.{Sent, running, items_of, send_loop, send_mock}
use ref_falcon.Nodata.Sending.Batches.{Ends, Whole, send_mock-Whole, send_loop-stuck}

abbrev config : NdConfig ℤ
config = record {
  endpoint = "host";
  metric = "agent.alive";
  tags = [];
  counter_type = "GAUGE";
  step = pos 60;
  mock = pos 0;
}

abbrev sorted_tags : Tags → String
sorted_tags tags = ""

abbrev first_item : String → Option (DataItem ℤ)
first_item key = some (record { ts = pos 100; value = pos 5; f_status = "OK"; f_ts = pos 990 })

abbrev start : State ℤ
start = record { status_map = []; mocks = [] }

configured : lookup "host/agent.alive" (("host/agent.alive", config) ∷ []) ≡ some config
unfolding lookup
configured = refl

judge_key-Change_example : ChangeAt sorted_tags (pos 1000) config "host/agent.alive" start (
    judge_key sorted_tags
      (("host/agent.alive", config) ∷ [])
      first_item
      (pos 1000)
      "host/agent.alive"
      start)
judge_key-Change_example =
    judge_key-Change sorted_tags (("host/agent.alive", config) ∷ []) first_item (pos 1000)
      "host/agent.alive" config start configured

abbrev mocks : List (Option ℕ)
mocks = some 1 ∷ none ∷ some 2 ∷ some 3 ∷ []

send_mock-Whole_example : Ends (Whole length 1 (items_of mocks)) (send_mock length (pos 2) mocks)
send_mock-Whole_example = send_mock-Whole length 1 mocks

send_loop-stuck_example :
    (last : Sent ℕ) × (send_loop length (pos 0) 4 mocks (record { posts = []; cnt = 0 })
      ≡ running last)
send_loop-stuck_example =
    send_loop-stuck length 4 (some 1) (none ∷ some 2 ∷ some 3 ∷ []) (record { posts = []; cnt = 0 })

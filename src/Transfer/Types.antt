-- ===== src/Transfer/Types.antt =====
-- The structs of common/model that transfer reads and writes; they are not in the repository, and
-- the fields are those that the code uses.
use ref_falcon.Prelude.Int.{ℤ}
use ref_falcon.Prelude.Text.{String}
use ref_falcon.Judge.Types.{Tags}

-- A value of type interface{}.
pub data Value (V : Type 0) : Type 0 where
  text : String → Value V
  float : V → Value V
  int : ℤ → Value V
  other : Value V

pub record MetricValue (V : Type 0) : Type 0 where
  pub endpoint : String
  pub metric : String
  pub value : Value V
  pub step : ℤ
  pub counter_type : String
  pub tags : String
  pub timestamp : ℤ

pub record MetaData (V : Type 0) : Type 0 where
  pub metric : String
  pub endpoint : String
  pub timestamp : ℤ
  pub step : ℤ
  pub value : V
  pub counter_type : String
  pub tags : Tags

pub record GraphItem (V : Type 0) : Type 0 where
  pub endpoint : String
  pub metric : String
  pub tags : Tags
  pub value : V
  pub timestamp : ℤ
  pub ds_type : String
  pub step : ℤ
  pub heartbeat : ℤ
  pub min : String
  pub max : String

pub record TsdbItem (V : Type 0) : Type 0 where
  pub metric : String
  pub tags : Tags
  pub value : V
  pub timestamp : ℤ

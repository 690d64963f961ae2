-- ===== src/Models.antt =====
-- internal/models/telemetry.go: what inputs hand to outputs. A `time.Time` is its instant in
-- nanoseconds since 1970 (`UnixNano`); its location shows only in `Format`, which is a parameter. A
-- float64 is its bit pattern.
pub mod Plugin
use arbutus.Base.{ℕ, ◌≡◌, ◌↔◌, arith, Bool, true, false, Bytes, GoMap, Eq}

-- `negsuc n` is -(n + 1).
pub data ℤ : Type 0 where
  pos : ℕ → ℤ
  negsuc : ℕ → ℤ

abbrev pub Time : Type 0
Time = ℤ

-- The dynamic values of an `interface{}`: those that the program asserts on, and the rest.
pub data Any : Type 0 where
  str : Bytes → Any
  bool : Bool → Any
  int : ℤ → Any
  int64 : ℤ → Any
  other : ℕ → Any

pub data TelemetryType : Type 0 where
  type_log type_trace type_metric : TelemetryType

abbrev pub beq_type : TelemetryType → TelemetryType → Bool
beq_type type_log type_log = true
beq_type type_trace type_trace = true
beq_type type_metric type_metric = true
beq_type _ _ = false

pub beq_type_iff : (a b : TelemetryType) → (beq_type a b ≡ true) ↔ (a ≡ b)
beq_type_iff type_log type_log = ground arith
beq_type_iff _ _ = ground arith

instance abbrev pub type_eq : Eq TelemetryType
type_eq = record { beq = beq_type; beq_iff = beq_type_iff }

pub record Log : Type 0 where
  pub time : Time
  pub level : Bytes
  pub message : Bytes
  pub attributes : GoMap Bytes Any

pub record Span : Type 0 where
  pub trace_id : Bytes
  pub span_id : Bytes
  pub parent_id : Bytes
  pub name : Bytes
  pub start_time : Time
  pub end_time : Time
  pub attributes : GoMap Bytes Any

pub record Metric : Type 0 where
  pub time : Time
  pub name : Bytes
  pub value : ℕ
  pub tags : GoMap Bytes Bytes
  pub fields : GoMap Bytes Any

-- The interface `Telemetry`, by its three implementations.
pub data Telemetry : Type 0 where
  log : Log → Telemetry
  span : Span → Telemetry
  metric : Metric → Telemetry

-- `Type()`
abbrev pub type_of : Telemetry → TelemetryType
type_of (log l) = type_log
type_of (span s) = type_trace
type_of (metric m) = type_metric

-- `Timestamp()`
abbrev pub timestamp : Telemetry → Time
timestamp (log l) = l.time
timestamp (span s) = s.start_time
timestamp (metric m) = m.time

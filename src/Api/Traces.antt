-- ===== src/Api/Traces.antt =====
-- The records of the events and trace views (web/src/api/observability.ts).
use ephemeral_sandbox_consol.Base.{ℕ, Option, List, Text}
use ephemeral_sandbox_consol.Base.Json.{Fields}

pub record TraceEvent : Type 0 where
  pub ts : ℕ
  pub trace : Text
  pub parent : Option Text
  pub name : Text
  pub attrs : Fields

pub record TraceSpan : Type 0 where
  pub ts : ℕ
  pub trace : Text
  pub span : Text
  pub name : Text
  pub dur_ms : Option ℕ
  pub status : Text
  pub attrs : Fields

-- An event attached to a span, positioned from the trace's start.
pub record TraceEventNode : Type 0 where
  pub offset_ms : ℕ
  pub event : TraceEvent

mutual
  -- A span, its `offset_ms`, its children and its events.
  pub data TraceNode : Type 0 where
    node : TraceSpan → ℕ → TraceNodes → List TraceEventNode → TraceNode

  pub data TraceNodes : Type 0 where
    no_nodes : TraceNodes
    nodes : TraceNode → TraceNodes → TraceNodes

abbrev pub span_of : TraceNode → TraceSpan
span_of (node span offset_ms children events) = span

abbrev pub offset_of : TraceNode → ℕ
offset_of (node span offset_ms children events) = offset_ms

abbrev pub children_of : TraceNode → TraceNodes
children_of (node span offset_ms children events) = children

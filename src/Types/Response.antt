-- ===== src/Types/Response.antt =====
-- src/types.rs: what the TON API answers about traces. A `HashMap` is a function.
use axelar_relayer_ton.Prelude.{String, Bool, Option, none, some, List, [], ◌∷◌, map}
use axelar_relayer_ton.Prelude.Int.{ℤ}
use axelar_relayer_ton.Types.{Trace, Transaction}

pub record TraceRest (A : Type 0) : Type 0 where
  pub is_incomplete : Bool
  pub start_lt : ℤ  -- i64
  pub end_lt : ℤ  -- i64
  pub trace_id : String
  pub transactions : String → Option (Transaction A)
  pub transactions_order : List String

pub record TracesResponseRest (A : Type 0) : Type 0 where
  pub traces : List (TraceRest A)

pub record TracesResponse (A : Type 0) : Type 0 where
  pub traces : List (Trace A)

abbrev pub keep {ℓ} : {B : Type ℓ} → Option B → List B → List B
keep none rest = rest
keep (some b) rest = b ∷ rest

abbrev pub filter_map {ℓ κ} : {A : Type ℓ} {B : Type κ} → (A → Option B) → List A → List B
filter_map f [] = []
filter_map f (a ∷ rest) = keep (f a) (filter_map f rest)

module _ {A : Type 0} where
  -- A key that the map does not have is logged and left out.
  abbrev pub to_trace : TraceRest A → Trace A
  to_trace trace_rest = record {
    is_incomplete = trace_rest.is_incomplete;
    start_lt = trace_rest.start_lt;
    end_lt = trace_rest.end_lt;
    trace_id = trace_rest.trace_id;
    transactions = filter_map trace_rest.transactions trace_rest.transactions_order;
  }

  unfoldable pub from : TracesResponseRest A → TracesResponse A
  from rest = record { traces = map to_trace rest.traces }

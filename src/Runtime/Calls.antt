-- ===== src/Runtime/Calls.antt =====
-- lib.rs: a history of the pending requests, as the calls that either side makes.
use dart_edge.Base.{ℕ, false, List, [], ◌∷◌, none, some}
use dart_edge.Base.Keys.{nat_eq}
use dart_edge.Base.Map
use dart_edge.Runtime.Message.{TransportRequest}
use dart_edge.Runtime.Statics.{Statics}
use dart_edge.Runtime.Pending.{
  Answer, dispatch_request_to_dart, take_request, answer, stop_server_by_id,
}

-- `hangs_up` is the HTTP side that drops the receiver, as it does when a client goes away.
pub data Call : Type 0 where
  dispatches : ℕ → TransportRequest → Call
  takes : ℕ → Call
  answers : ℕ → Answer → Call
  stops : ℕ → Call
  hangs_up : ℕ → Call

unfoldable pub hang_up : ℕ → Statics → Statics
hang_up request_id s = elim (Map.get request_id s.response_channels) [
  | none ↦ s
  | some c ↦ record s {
    response_channels = Map.insert request_id (record c { receiver = false }) s.response_channels;
  }
]

unfoldable pub call : Call → Statics → Statics
unfolding hang_up
call (dispatches server_id request) s = (dispatch_request_to_dart server_id request s).0
call (takes request_id) s = (take_request request_id s).0
call (answers request_id a) s = (answer request_id a s).0
call (stops server_id) s = stop_server_by_id server_id s
call (hangs_up request_id) s = hang_up request_id s

unfoldable pub call_all : List Call → Statics → Statics
call_all [] s = s
call_all (c ∷ cs) s = call_all cs (call c s)

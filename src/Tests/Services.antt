-- ===== src/Tests/Services.antt =====
-- include/cercall/service.h
use cercall.Base.{◌≡◌, refl, true, false, [], ◌∷◌, lookup, nat_eq, arith}
use cercall.Base.Exec.{◌>>◌, undefined, ok, throws, runtime_error}
use cercall.Error.{ErrorCode, operation_in_progress}
use cercall.Archive.{Bytes, void}
use cercall.Serialization.{failed}
use cercall.Cereal
use cercall.Cereal.RoundTrip.{cereal}
use cercall.Cereal.Types.{save_result}
use cercall.Service.{
  Service, broadcast, ClientState, dispatch_func, call_closure, stop, new_service, start,
  client_accepted, find_pending_call, erase_pending_call,
}
use cercall.FunctionDict
use cercall.FunctionDict.{is_one_way, call_function}
use cercall.Service.Answers.{
  IsReady, sent_to, result_body, dispatch_func-answered, dispatch_func-refused, call_closure-sent,
}
use cercall.Service.Twice.{already_delivered, call_closure-twice}
use cercall.Service.Broadcasts.{IsReached, sent_each, event_body, broadcast-sent, broadcast-failed}
use cercall.Transport.{Transport, operation_aborted}
use cercall.Base.Int.{pos}
use cercall.Service.History.{run, starts, accepts, receives, stops}
use cercall.Service.Runs.{run-HasSingle}
use cercall.Service.Single.{HasSingle}
use cercall.Service.Stops.{AreServed, stop-clients}
use cercall.Service.Accepts.{accept_failed, left_open, restart, start-failed, restart-aborted}
use cercall.Messenger.{new_messenger}
use cercall.Tests.Codec.{numbers}
use cercall.Tests.Setup.{
  plain_cereal, linux, number, dictionary, five, connection, success, service, waiting_service,
}

abbrev pub client_state : ClientState
client_state = record { messenger = new_messenger; archives = false }

pub connection-IsReady : IsReady service 8 connection
unfolding lookup
connection-IsReady = record { found = refl; is_opened = refl; taken = refl }

waiting-IsReady : IsReady waiting_service 8 connection
unfolding lookup
waiting-IsReady = record { found = refl; is_opened = refl; taken = refl }

abbrev arguments : Bytes
arguments = 2 ∷ 3 ∷ 9 ∷ []

dispatch_func-answered_example :
    dispatch_func plain_cereal linux 8 "Calc::add" arguments service
    ≡ (ok tt, sent_to 8 connection (result_body plain_cereal linux "Calc::add" number five) service)
unfolding find_pending_call lookup cereal is_one_way call_function Cereal.serialize_call_result
    Cereal.archived save_result FunctionDict.find FunctionDict.call FunctionDict.deserialize_args
    Cereal.deserialize_arg FunctionDict.call_func
dispatch_func-answered_example =
    dispatch_func-answered plain_cereal linux 8 client_state connection "Calc::add" arguments number
      five service refl refl refl refl connection-IsReady (omega arith) refl refl

dispatch_func-refused_example :
    dispatch_func plain_cereal linux 8 "Calc::add" arguments waiting_service ≡ (
      ok tt,
      sent_to 8 connection
          (result_body plain_cereal linux "Calc::add" void
            (failed numbers void (operation_in_progress linux)))
          waiting_service,
    )
unfolding find_pending_call lookup cereal is_one_way Cereal.serialize_call_result Cereal.archived
    save_result FunctionDict.find operation_in_progress
dispatch_func-refused_example =
    dispatch_func-refused plain_cereal linux 8 client_state connection "Calc::add" arguments
      waiting_service refl refl refl waiting-IsReady (omega arith) refl

call_closure-sent_example :
    call_closure plain_cereal linux 8 "Calc::add" number five waiting_service ≡ (
      ok tt,
      record (sent_to 8 connection
          (result_body plain_cereal linux "Calc::add" number five)
          waiting_service) {
            pending_calls = erase_pending_call "Calc::add" 8 waiting_service.pending_calls;
          },
    )
unfolding find_pending_call lookup cereal Cereal.serialize_call_result Cereal.archived save_result
call_closure-sent_example =
    call_closure-sent plain_cereal linux 8 client_state connection "Calc::add" number five
      waiting_service refl refl refl refl waiting-IsReady (omega arith)

call_closure-twice_example :
    (call_closure plain_cereal linux 8 "Calc::add" number five
        >> call_closure plain_cereal linux 8 "Calc::add" number five)
      waiting_service
    ≡ (
      throws (runtime_error (already_delivered "Calc::add")),
      record (sent_to 8 connection
          (result_body plain_cereal linux "Calc::add" number five)
          waiting_service) {
            pending_calls = erase_pending_call "Calc::add" 8 waiting_service.pending_calls;
          },
    )
unfolding lookup cereal Cereal.serialize_call_result Cereal.archived save_result
call_closure-twice_example =
    call_closure-twice plain_cereal linux 8 client_state connection "Calc::add" number five five
      waiting_service refl refl refl refl waiting-IsReady (omega arith)

run-HasSingle_example : HasSingle numbers (
    run plain_cereal linux "Calc"
      (starts success success success
        ∷ accepts success 8 []
        ∷ receives 8 success (0 ∷ []) 1
        ∷ stops
        ∷ [])
      (new_service numbers 0 dictionary))
run-HasSingle_example = run-HasSingle plain_cereal linux "Calc" 0 dictionary (
    starts success success success
    ∷ accepts success 8 []
    ∷ receives 8 success (0 ∷ []) 1
    ∷ stops
    ∷ [])

service-AreServed : AreServed service
unfolding lookup
service-AreServed p cs h = (connection, ground arith, refl, refl)

stop-clients_example :
    ((stop plain_cereal linux "Calc" service).0 ≡ ok tt)
    × ((stop plain_cereal linux "Calc" service).1.clients ≡ [])
    × ((stop plain_cereal linux "Calc" service).1.acceptor.is_open ≡ false)
stop-clients_example = stop-clients plain_cereal linux "Calc" service refl refl service-AreServed

service-IsReached : IsReached plain_cereal service 8
unfolding lookup cereal
service-IsReached = record {
  state = client_state;
  transport = connection;
  client = refl;
  same = refl;
  ready = connection-IsReady;
}

broadcast-sent_example :
    broadcast plain_cereal linux "Calc" (tt, 4) service
    ≡ (ok tt, sent_each (8 ∷ []) (event_body plain_cereal linux "Calc" (tt, 4)) service)
unfolding cereal Cereal.serialize_event Cereal.archived
broadcast-sent_example =
    broadcast-sent plain_cereal linux "Calc" (tt, 4) service refl (omega arith)
      (service-IsReached, tt)

abbrev reset : ErrorCode
reset = record { value = pos 104; category = 1; message = "connection reset" }

abbrev failing : Transport
failing = record connection { write_results = reset ∷ [] }

abbrev failing_service : Service numbers
failing_service = record service { transports = (8, failing) ∷ [] }

broadcast-failed_example :
    (broadcast plain_cereal linux "Calc" (tt, 4) failing_service).0 ≡ undefined
unfolding lookup cereal Cereal.serialize_event Cereal.archived
broadcast-failed_example =
    broadcast-failed plain_cereal linux "Calc" (tt, 4) 8 client_state [] failing reset []
      failing_service refl refl refl refl refl refl refl refl (omega arith)

abbrev stopped_service : Service numbers
stopped_service = record service {
  acceptor = record { is_open = false; has_listener = true; accepting = 0 };
}

abbrev in_use : ErrorCode
in_use = record { value = pos 98; category = 1; message = "address already in use" }

start-failed_example :
    (start plain_cereal linux "Calc" success in_use success stopped_service
      ≡ (throws (accept_failed in_use), left_open stopped_service))
    × (start plain_cereal linux "Calc" success success success (left_open stopped_service)
        ≡ (ok tt, left_open stopped_service))
start-failed_example =
    start-failed plain_cereal linux "Calc" success in_use success success success success
      stopped_service refl refl refl refl refl

restart-aborted_example :
    let (o, stopped) =
      (stop plain_cereal linux "Calc"
          >> client_accepted plain_cereal linux "Calc" (operation_aborted linux) 9 [])
        service in
    let (o', again) = restart plain_cereal linux "Calc" success success success service in
    let (o'', after) =
      client_accepted plain_cereal linux "Calc" (operation_aborted linux) 9 [] again in
    (o ≡ ok tt)
    × (stopped.acceptor.accepting ≡ 0)
    × (o' ≡ ok tt)
    × (again.acceptor.accepting ≡ 2)
    × (o'' ≡ throws (accept_failed (operation_aborted linux)))
    × (after.acceptor.accepting ≡ 1)
restart-aborted_example =
    restart-aborted plain_cereal linux "Calc" success success success 9 [] service refl refl refl
      refl refl refl service-AreServed

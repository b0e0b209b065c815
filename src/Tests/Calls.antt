-- ===== src/Tests/Calls.antt =====
-- A call from a client to a service and back.
use cercall.Base.{◌≡◌, refl, false, [], ◌∷◌, lookup, insert, erase, string_eq, nat_eq, arith}
use cercall.Base.Exec.{ok}
use cercall.Archive.{Bytes, received}
use cercall.Cereal
use cercall.Cereal.RoundTrip.{cereal}
use cercall.Cereal.Types.{save_result}
use cercall.FunctionDict
use cercall.FunctionDict.{FuncDict, add_function}
use cercall.Client
use cercall.Client.{Client, EventTy, no_event, closure_called, send_call}
use cercall.Client.Calls.{after_sending, call_body}
use cercall.Messenger.{new_messenger}
use cercall.Service
use cercall.Service.{Service, find_pending_call}
use cercall.Service.Answers.{sent_to, result_body}
use cercall.TypeUtil.{last_type_of, remove_last_type_of}
use cercall.Rpc.{CanCall, CanAnswer, send_call-answered}
use cercall.Tests.Codec.{numbers}
use cercall.Tests.Setup.{
  plain_cereal, linux, number, two_and_three, five, add, add_closure, connection, idle_client,
  service,
}

abbrev no_events : EventTy numbers
no_events = no_event

abbrev call : Bytes
call = call_body plain_cereal "Calc" 2 "add" two_and_three idle_client

abbrev reply : Bytes
reply = result_body plain_cereal linux "Calc::add" number five

abbrev called : Client numbers
called = record (after_sending call idle_client) { closures = insert "Calc::add" add_closure [] }

idle_client-CanCall : CanCall plain_cereal "Calc" 2 "add" two_and_three idle_client
unfolding lookup cereal Cereal.serialize_call Cereal.archived Cereal.serialize_args
idle_client-CanCall = record {
  own = refl;
  same = refl;
  is_opened = refl;
  taken = refl;
  idle = refl;
  none_wait = refl;
  small = omega arith;
  not_event = refl;
}

service-CanAnswer : CanAnswer plain_cereal 8 connection "Calc::add" service
unfolding lookup find_pending_call cereal
service-CanAnswer = record {
  state = record { messenger = new_messenger; archives = false };
  own = refl;
  idle = refl;
  client = refl;
  same = refl;
  ready = record { found = refl; is_opened = refl; taken = refl };
}

send_call-answered_example :
    (send_call plain_cereal "Calc" 2 "add" add_closure two_and_three idle_client ≡ (ok tt, called))
    × (Service.handle_message plain_cereal linux "Calc" 8 call service
        ≡ (ok tt, sent_to 8 connection reply service))
    × (Client.handle_message plain_cereal "Calc" 2 no_events reply called ≡ (
      ok tt,
      record called {
        closures = erase "Calc::add" called.closures;
        calls = closure_called 10 number (received numbers number five) ∷ [];
      },
    ))
unfolding add_function insert cereal Cereal.serialize_call_result Cereal.archived save_result
    FunctionDict.result_type_traits last_type_of remove_last_type_of
send_call-answered_example =
    send_call-answered plain_cereal linux "Calc" 2 no_events 10 number two_and_three "add"
      idle_client 8 connection service add [] five idle_client-CanCall service-CanAnswer refl refl
      (omega arith)

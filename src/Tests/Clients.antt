-- ===== src/Tests/Clients.antt =====
-- include/cercall/client.h, and its calls of a service.
use cercall.Base.{
  ◌≡◌, refl, false, none, some, [], ◌∷◌, map, lookup, insert, erase, string_eq, nat_eq, arith,
}
use cercall.Base.Exec.{ok}
use cercall.Base.Int.{pos}
use cercall.Error.{Error}
use cercall.Archive.{Bytes, received}
use cercall.Cereal
use cercall.Cereal.RoundTrip.{cereal}
use cercall.Messenger.{strip_header}
use cercall.Client.{
  Client, QueuedCall, EventTy, new_client, no_event, plain_event, polymorphic_event, closure_called,
  event_received, send_call, handle_message, dispatch_connection_error,
}
use cercall.Client.Calls.{after_sending, call_body, send_call-sent}
use cercall.Client.Answers.{handle_message-answer, dispatch_connection_error-called, error_call}
use cercall.Client.Events.{handle_message-plain_event, handle_message-polymorphic_event}
use cercall.Client.Bounds.{run-FewWait}
use cercall.Client.Waits.{FewWait}
use cercall.Client.History.{run, sends, opens, closes}
use cercall.Tests.Codec.{numbers}
use cercall.Tests.Setup.{
  plain_cereal, linux, number, two_and_three, five, add_closure, other_closure, idle_client,
  busy_client, success,
}

abbrev pub no_events : EventTy numbers
no_events = no_event

abbrev number_event : EventTy numbers
number_event = plain_event tt

abbrev pointer_event : EventTy numbers
pointer_event = polymorphic_event tt

abbrev five_message : Bytes
five_message = strip_header (plain_cereal.serialize_call_result false "Calc::add" number five)

send_call-sent_example :
    send_call plain_cereal "Calc" 2 "add" add_closure two_and_three idle_client ≡ (
      ok tt,
      record (after_sending
          (call_body plain_cereal "Calc" 2 "add" two_and_three idle_client)
          idle_client) { closures = insert "Calc::add" add_closure [] },
    )
unfolding lookup cereal Cereal.serialize_call Cereal.archived Cereal.serialize_args
send_call-sent_example =
    send_call-sent plain_cereal "Calc" 2 "add" add_closure two_and_three idle_client refl refl refl
      refl (omega arith)

handle_message-answer_example :
    handle_message plain_cereal "Calc" 2 no_events five_message busy_client ≡ (
      ok tt,
      record busy_client {
        closures = erase "Calc::add" busy_client.closures;
        calls = closure_called 10 number (received numbers number five) ∷ [];
      },
    )
unfolding lookup
handle_message-answer_example =
    handle_message-answer plain_cereal "Calc" 2 no_events "Calc::add" add_closure five busy_client
      refl refl refl

abbrev queued : QueuedCall numbers
queued = record { msg = 0 ∷ 0 ∷ 0 ∷ 0 ∷ 6 ∷ []; closure_function = other_closure }

abbrev queue_client : Client numbers
queue_client = record busy_client { call_queue = ("Calc::add", queued ∷ []) ∷ [] }

abbrev reset : Error
reset = record { code = pos 104; category = some 1; message = "connection reset" }

dispatch_connection_error-called_example :
    dispatch_connection_error plain_cereal "Calc" 2 no_events reset busy_client ≡ (
      ok tt,
      record busy_client {
        closures = [];
        calls = map (error_call plain_cereal "Calc" 2 no_events reset) busy_client.closures;
      },
    )
dispatch_connection_error-called_example =
    dispatch_connection_error-called plain_cereal "Calc" 2 no_events reset busy_client refl
      (refl, tt)

handle_message-plain_event_example :
    handle_message plain_cereal "Calc" 2 number_event
      (strip_header (plain_cereal.serialize_event false "Calc::broadcast_event" (tt, 4)))
      idle_client
    ≡ (
      ok tt,
      record idle_client {
        calls = event_received 1 tt (some 4) ∷ event_received 2 tt (some 4) ∷ [];
      },
    )
handle_message-plain_event_example =
    handle_message-plain_event plain_cereal "Calc" 2 tt 4 idle_client

handle_message-polymorphic_event_example :
    handle_message plain_cereal "Calc" 2 pointer_event
      (strip_header (plain_cereal.serialize_event false "Calc::broadcast_event" (tt, 4)))
      idle_client
    ≡ (
      ok tt,
      record idle_client { calls = event_received 1 tt (some 4) ∷ event_received 2 tt none ∷ [] },
    )
handle_message-polymorphic_event_example =
    handle_message-polymorphic_event plain_cereal "Calc" 2 tt 4 idle_client

run-FewWait_example : FewWait numbers 2 (
    run plain_cereal linux "Calc" 2 no_events
      (opens (some success)
        ∷ sends "add" add_closure two_and_three
        ∷ sends "add" other_closure two_and_three
        ∷ closes
        ∷ [])
      (new_client numbers 0 []))
run-FewWait_example =
    run-FewWait plain_cereal "Calc" 2 no_events linux
      (opens (some success)
        ∷ sends "add" add_closure two_and_three
        ∷ sends "add" other_closure two_and_three
        ∷ closes
        ∷ [])
      0 []

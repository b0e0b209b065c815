-- ===== src/Tests/Runs.antt =====
-- Runs of include/cercall/service.h.
use cercall.Base.{◌≡◌, refl, false, List, [], ◌∷◌, lookup, insert, nat_eq}
use cercall.Base.Exec.{ok}
use cercall.Service.{
  new_service, stop, start, check_thread_id, client_accepted, accept_client, on_client_accepted,
  add_client, on_transport, service_channel, close_transport, notify_closed, on_disconnected,
}
use cercall.Service.History.{Operation, step, run, starts, accepts, closes_client}
use cercall.Service.Stops.{AreServed}
use cercall.Service.Reached.{AreFresh, run-AreServed, stop-run}
use cercall.Acceptor.{open_acceptor, start_accept, accept_completed}
use cercall.Messenger.{init_transport}
use cercall.Transport
use cercall.Tests.Codec.{numbers}
use cercall.Tests.Setup.{plain_cereal, linux, dictionary, success}

-- Two clients connect, and one is closed.
abbrev operations : List (Operation numbers)
operations =
    starts success success success
    ∷ accepts success 8 []
    ∷ accepts success 9 []
    ∷ closes_client 8
    ∷ []

operations-AreFresh :
    AreFresh plain_cereal linux "Calc" operations (new_service numbers 0 dictionary)
unfolding step start open_acceptor start_accept check_thread_id client_accepted accept_completed
    accept_client on_client_accepted add_client on_transport service_channel init_transport lookup
    insert new_service Transport.start Transport.set_listener Transport.read
operations-AreFresh = (tt, (refl, (refl, (tt, tt))))

run-AreServed_example :
    AreServed (run plain_cereal linux "Calc" operations (new_service numbers 0 dictionary))
run-AreServed_example =
    run-AreServed plain_cereal linux "Calc" 0 dictionary operations operations-AreFresh

stop-run_example :
    let (o, s) =
      stop plain_cereal linux "Calc"
        (run plain_cereal linux "Calc" operations (new_service numbers 0 dictionary)) in
    (o ≡ ok tt) × (s.clients ≡ []) × (s.acceptor.is_open ≡ false)
unfolding step run start open_acceptor start_accept check_thread_id client_accepted accept_completed
    accept_client on_client_accepted add_client on_transport service_channel init_transport lookup
    insert new_service Transport.start Transport.set_listener Transport.read close_transport
    notify_closed on_disconnected Transport.close Transport.clear_listener
stop-run_example =
    stop-run plain_cereal linux "Calc" 0 dictionary operations operations-AreFresh refl

-- ===== src/Client/Calls.antt =====
-- A call of include/cercall/client.h of a function that has no call in progress.
use cercall.Base.{
  ℕ, ◌-◌, ◌≤◌, ◌≡◌, refl, true, none, String, List, [], ◌∷◌, ◌++◌, lookup, insert, string_eq,
  nat_beq, length,
}
use cercall.Base.Exec.{ok}
use cercall.Error.{no_error}
use cercall.Archive.{Archive, Bytes, Arg}
use cercall.Serialization.{Serialization, HasHeader}
use cercall.Messenger.{
  strip_header, reserve_message_header, size_max, size_bytes, write_message_with_header_sent,
}
use cercall.Transport.{opened}
use cercall.Client.State.{Client, ClosureFunction, write}
use cercall.Client.Sending.{
  full_func_name, prepare_call_message, enqueue_closure, start_call, start_or_queue, send_call,
}

module _ {lib : Archive} where
  -- The client after it has sent a message.
  abbrev pub after_sending : Bytes → Client lib → Client lib
  after_sending body c = record c {
    transport = record c.transport {
      sent = c.transport.sent ++ (size_bytes (length body) ++ body) ∷ [];
    };
  }

  -- A message that the socket takes.
  pub write-sent :
      (body : Bytes) (c : Client lib)
      → length body ≤ size_max - 8
      → c.transport.state ≡ opened
      → c.transport.write_results ≡ []
      → write lib (reserve_message_header ++ body) c ≡ (
        ok no_error,
        record c {
          transport = record c.transport {
            sent = c.transport.sent ++ (size_bytes (length body) ++ body) ∷ [];
          };
        },
      )
  unfolding write
  write-sent body c small o r = rw (write_message_with_header_sent body c.transport small o r) refl

module _ {lib : Archive} (S : Serialization lib) (type_name : String) (max_calls : ℕ) where
  -- The body of the message of a call.
  abbrev pub call_body : String → List (Arg lib) → Client lib → Bytes
  call_body f args c =
      strip_header (S.serialize_call c.archives (full_func_name S type_name max_calls f) args)

  call_message_of : String → List (Arg lib) → Client lib → Bytes
  call_message_of f args c =
      S.serialize_call c.archives (full_func_name S type_name max_calls f) args

  prepare_call_message-open :
      (f : String) (args : List (Arg lib)) (c : Client lib)
      → nat_beq c.caller c.thread_id ≡ true
      → c.transport.state ≡ opened
      → prepare_call_message S type_name max_calls f args c
        ≡ (ok (full_func_name S type_name max_calls f, call_message_of f args c), c)
  unfolding prepare_call_message call_message_of
  prepare_call_message-open f args c own o = simp (own, o)

  start_call-sent :
      (f : String) (msg : Bytes) (cl : ClosureFunction lib) (c : Client lib)
      → HasHeader msg
      → length (strip_header msg) ≤ size_max - 8
      → c.transport.state ≡ opened
      → c.transport.write_results ≡ []
      → start_call S type_name max_calls f msg cl c
        ≡ (ok tt, record (after_sending (strip_header msg) c) { closures = insert f cl c.closures })
  unfolding start_call enqueue_closure
  start_call-sent f msg cl c h small o w =
      rw h (rw (write-sent (strip_header msg) c small o w) refl)

  -- A call by the client's thread of a function with no call in progress, over an open
  -- connection whose socket takes the message, which is not too long: the message is sent, and
  -- the closure waits for the result.
  pub send_call-sent :
      (f : String) (cl : ClosureFunction lib) (args : List (Arg lib)) (c : Client lib)
      → nat_beq c.caller c.thread_id ≡ true
      → c.transport.state ≡ opened
      → c.transport.write_results ≡ []
      → lookup (full_func_name S type_name max_calls f) c.closures ≡ none
      → length (call_body f args c) ≤ size_max - 8
      → send_call S type_name max_calls f cl args c ≡ (
        ok tt,
        record (after_sending (call_body f args c) c) {
          closures = insert (full_func_name S type_name max_calls f) cl c.closures;
        },
      )
  unfolding send_call start_or_queue call_message_of
  send_call-sent f cl args c own o w idle small = rw (prepare_call_message-open f args c own o) (
      rw idle (
        start_call-sent (full_func_name S type_name max_calls f) (call_message_of f args c) cl c
          (S.serialize_call-HasHeader c.archives (full_func_name S type_name max_calls f) args)
          small o w))

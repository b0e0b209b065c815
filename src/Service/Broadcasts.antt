-- ===== src/Service/Broadcasts.antt =====
-- `broadcast` of include/cercall/service.h.
use cercall.Base.{
  ℕ, ◌-◌, ◌≤◌, ◌≡◌, refl, ap, sym, ◌∙◌, true, false, none, some, String, List, [], ◌∷◌, ◌++◌, All,
  Map, lookup, lookup-insert, lookup-insert_self, erase, lookup-erase_self, nat_eq, nat_beq, ◌==◌,
  length, Bool-cases, inl, inr, if◌then◌else◌,
}
use cercall.Base.Exec.{ok, undefined}
use cercall.Error.{Error, System, ErrorCode, of_error_code}
use cercall.Base.Int.{is_zero}
use cercall.Archive.{Archive, Bytes, Arg}
use cercall.Serialization.{Serialization, HasHeader}
use cercall.Messenger.{strip_header, size_max, size_bytes, write_message_with_header_failed}
use cercall.Transport.{Transport, opened, closed}
use cercall.Service.State.{
  Service, ClientState, check_thread_id, on_transport, notify_closed, on_disconnected, write,
  client_ids,
}
use cercall.Service.Clients.{broadcast_func_name, broadcast_to, broadcast_loop, broadcast}
use cercall.Service.Stops.{lookup_first}
use cercall.Service.Answers.{IsReady, sent_to, write-sent}

module _ {lib : Archive} where
  -- The service after it has sent a message to a client, and to each of some clients.
  abbrev pub send_now : ℕ → Bytes → Service lib → Service lib
  send_now p body s = elim (lookup p s.transports) [ none ↦ s | some t ↦ sent_to p t body s ]

  abbrev pub sent_each : List ℕ → Bytes → Service lib → Service lib
  sent_each [] body s = s
  sent_each (p ∷ ps) body s = sent_each ps body (send_now p body s)

  send_now-ready :
      (p : ℕ) (body : Bytes) (s : Service lib) (t : Transport)
      → IsReady s p t
      → send_now p body s ≡ sent_to p t body s
  send_now-ready p body s t h = rw (h.found, send_now) refl

module _ {lib : Archive} (S : Serialization lib) where
  -- A client is connected, and its socket takes a message.
  pub record IsReached (s : Service lib) (p : ℕ) : Type 0 where
    pub state : ClientState
    pub transport : Transport
    pub client : lookup p s.clients ≡ some state
    pub same : state.archives ≡ S.reusable_archive
    pub ready : IsReady s p transport

  sent_to-IsReached :
      (p q : ℕ) (body : Bytes) (s : Service lib) (t : Transport)
      → IsReady s p t
      → IsReached s q
      → IsReached (sent_to p t body s) q
  sent_to-IsReached p q body s t h r = elim (Bool-cases (p == q)) [
    | inl e ↦ record {
      state = r.state;
      transport = record t { sent = t.sent ++ (size_bytes (length body) ++ body) ∷ [] };
      client = r.client;
      same = r.same;
      ready = record {
        found = rw (lookup-insert p q, e) refl;
        is_opened = h.is_opened;
        taken = h.taken;
      };
    }
    | inr e ↦ record {
      state = r.state;
      transport = r.transport;
      client = r.client;
      same = r.same;
      ready = record {
        found = rw (lookup-insert p q, e) r.ready.found;
        is_opened = r.ready.is_opened;
        taken = r.ready.taken;
      };
    }
  ]

  sent_to-All-IsReached :
      (p : ℕ) (body : Bytes) (s : Service lib) (t : Transport) (ps : List ℕ)
      → IsReady s p t
      → All (IsReached s) ps
      → All (IsReached (sent_to p t body s)) ps
  sent_to-All-IsReached p body s t [] h a = tt
  sent_to-All-IsReached p body s t (q ∷ ps) h (r, a) =
      (sent_to-IsReached p q body s t h r, sent_to-All-IsReached p body s t ps h a)

module _ {lib : Archive} (S : Serialization lib) (sys : System) (type_name : String) where
  write-failed :
      (p : ℕ) (t : Transport) (ec : ErrorCode) (later : List ErrorCode) (msg : Bytes)
      (s : Service lib)
      → nat_beq s.caller s.thread_id ≡ true
      → lookup p s.transports ≡ some t
      → t.state ≡ opened
      → t.has_listener ≡ true
      → t.write_results ≡ ec ∷ later
      → is_zero ec.value ≡ false
      → HasHeader msg
      → length (strip_header msg) ≤ size_max - 8
      → ((write lib p msg s).0 ≡ ok (of_error_code ec))
        × ((write lib p msg s).1.clients ≡ erase p s.clients)
  unfolding write on_transport notify_closed on_disconnected check_thread_id
  write-failed p t ec later msg s own found o l r z h small = rw h (
      rw found (
        rw (write_message_with_header_failed (strip_header msg) ec later t small o l r z) (
          rw own (
            rw
              (lookup-insert_self p (record t { write_results = later; state = closed })
                s.transports)
              (refl, refl)))))

  abbrev pub event_body : Arg lib → Bytes
  event_body ev =
      strip_header (S.serialize_event S.reusable_archive (broadcast_func_name S sys type_name) ev)

  broadcast_to-sent :
      (ev : Arg lib) (p : ℕ) (s : Service lib)
      → length (event_body ev) ≤ size_max - 8
      → IsReached S s p
      → broadcast_to S sys type_name ev p s ≡ (ok tt, send_now p (event_body ev) s)
  unfolding broadcast_to
  broadcast_to-sent ev p s small r = rw r.client (
      rw r.same (
        rw
          (write-sent p r.transport _ s r.ready
            (S.serialize_event-HasHeader S.reusable_archive (broadcast_func_name S sys type_name)
              ev)
            small)
          (rw (r.client, if◌then◌else◌)
            (ap (λ s'. (ok tt, s'))
              (sym (send_now-ready p (event_body ev) s r.transport r.ready))))))

  broadcast_loop-sent :
      (ev : Arg lib) (ps : List ℕ) (s : Service lib)
      → length (event_body ev) ≤ size_max - 8
      → All (IsReached S s) ps
      → broadcast_loop S sys type_name ev ps s ≡ (ok tt, sent_each ps (event_body ev) s)
  unfolding broadcast_loop
  broadcast_loop-sent ev [] s small a = refl
  broadcast_loop-sent ev (p ∷ ps) s small (r, a) = rw (broadcast_to-sent ev p s small r) (
      rw (send_now-ready p (event_body ev) s r.transport r.ready) (
        broadcast_loop-sent ev ps (sent_to p r.transport (event_body ev) s) small
          (sent_to-All-IsReached S p (event_body ev) s r.transport ps r.ready a)))

  -- A broadcast by the service's thread, while every client is connected, with archives if the
  -- serialization reuses them, and every client's socket takes the message of the event, which is
  -- not too long: the message is sent to each client, in the order of the map, and nothing else
  -- changes.
  pub broadcast-sent :
      (ev : Arg lib) (s : Service lib)
      → nat_beq s.caller s.thread_id ≡ true
      → length (event_body ev) ≤ size_max - 8
      → All (IsReached S s) (client_ids lib s.clients)
      → broadcast S sys type_name ev s
        ≡ (ok tt, sent_each (client_ids lib s.clients) (event_body ev) s)
  unfolding broadcast check_thread_id
  broadcast-sent ev s own small a =
      rw own (broadcast_loop-sent ev (client_ids lib s.clients) s small a)

  abbrev event_message : Arg lib → Bytes
  event_message ev = S.serialize_event S.reusable_archive (broadcast_func_name S sys type_name) ev

  broadcast_to-failed :
      (ev : Arg lib) (p : ℕ) (cs : ClientState) (e : Error) (s : Service lib)
      → lookup p s.clients ≡ some cs
      → cs.archives ≡ S.reusable_archive
      → (write lib p (event_message ev) s).0 ≡ ok e
      → lookup p (write lib p (event_message ev) s).1.clients ≡ none
      → (broadcast_to S sys type_name ev p s).0 ≡ undefined
  unfolding broadcast_to
  broadcast_to-failed ev p cs e s client same failed gone =
      rw client (rw same (rw failed (rw (gone, if◌then◌else◌) refl)))

  broadcast_loop-undefined :
      (ev : Arg lib) (p : ℕ) (ps : List ℕ) (s : Service lib)
      → (broadcast_to S sys type_name ev p s).0 ≡ undefined
      → (broadcast_loop S sys type_name ev (p ∷ ps) s).0 ≡ undefined
  unfolding broadcast_loop
  broadcast_loop-undefined ev p ps s u = rw u refl

  -- A broadcast by the service's thread, whose write to the first client's open transport fails,
  -- where the service listens to that transport, the client has archives if the serialization
  -- reuses them, and the message is not too long: the loop goes on from a client that has been
  -- taken out of the map, which is undefined.
  pub broadcast-failed :
      (ev : Arg lib) (p : ℕ) (cs : ClientState) (rest : Map ℕ ClientState) (t : Transport)
      (ec : ErrorCode) (later : List ErrorCode) (s : Service lib)
      → nat_beq s.caller s.thread_id ≡ true
      → s.clients ≡ (p, cs) ∷ rest
      → cs.archives ≡ S.reusable_archive
      → lookup p s.transports ≡ some t
      → t.state ≡ opened
      → t.has_listener ≡ true
      → t.write_results ≡ ec ∷ later
      → is_zero ec.value ≡ false
      → length (event_body ev) ≤ size_max - 8
      → (broadcast S sys type_name ev s).0 ≡ undefined
  unfolding broadcast check_thread_id
  broadcast-failed ev p cs rest t ec later s own e same found o l r z small =
      let (failed, erased) =
        write-failed p t ec later (event_message ev) s own found o l r z
          (S.serialize_event-HasHeader S.reusable_archive (broadcast_func_name S sys type_name) ev)
          small in
      rw own (
        ap (λ m. (broadcast_loop S sys type_name ev (client_ids lib m) s).0) e
        ∙ broadcast_loop-undefined ev p (client_ids lib rest) s (
            broadcast_to-failed ev p cs (of_error_code ec) s
              (ap (lookup p) e ∙ lookup_first p cs rest) same failed
              (ap (lookup p) erased ∙ lookup-erase_self p s.clients)))

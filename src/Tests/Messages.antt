-- ===== src/Tests/Messages.antt =====
-- include/cercall/details/messenger.h, callqueue.h, functiondict.h and typeutil.h
use cercall.Base.{
  ℕ, ◌≡◌, refl, false, some, String, List, [], ◌∷◌, ◌++◌, map, lookup, insert, string_eq, ◌==◌,
  arith,
}
use cercall.Base.Exec.{ok, Exec, modify}
use cercall.Base.Ensures.{Ensures}
use cercall.Error.{no_error}
use cercall.Archive.{Bytes, arg_type, received}
use cercall.Messenger.{
  new_messenger, read, size_bytes, strip_header, write_message_with_header,
  write_message_with_header_sent,
}
use cercall.Messenger.Bounds.{Takes, read-Takes}
use cercall.Messenger.Stream.{pump}
use cercall.Messenger.Delivery.{
  Recorder, recorder_channel, recorder-IsChannel, frames, IsIdle, pump-frames,
}
use cercall.CallQueue.{CallQueue, enqueue_call, dequeue_call}
use cercall.CallQueue.Fifo.{waiting, waiting-enqueue_call, dequeue_call-front}
use cercall.TypeUtil.{last_type_of, remove_last_type_of, types-append}
use cercall.FunctionDict.{FuncDict, add_function, is_one_way, call_function, find}
use cercall.FunctionDict.Calls.{params_of, call_function-add_function}
use cercall.Cereal
use cercall.Cereal.RoundTrip.{deserialize_result-serialize}
use cercall.Tests.Codec.{numbers}
use cercall.Tests.Setup.{plain_cereal, number, two_and_three, five, add, connection}

write_message_with_header_sent_example :
    write_message_with_header (0 ∷ 0 ∷ 0 ∷ 0 ∷ 6 ∷ 7 ∷ []) connection
    ≡ (ok (no_error, []), record connection { sent = (size_bytes 2 ++ 6 ∷ 7 ∷ []) ∷ [] })
write_message_with_header_sent_example =
    write_message_with_header_sent (6 ∷ 7 ∷ []) connection (omega arith) refl refl

abbrev recorder : Recorder
recorder = record { messenger = new_messenger; transport = connection; delivered = [] }

read-Takes_example : Ensures (λ n r. Takes 3 n r.messenger) (read recorder_channel 3 recorder)
read-Takes_example = read-Takes recorder_channel recorder-IsChannel 3 recorder (omega arith)

abbrev messages : List Bytes
messages = (5 ∷ []) ∷ (6 ∷ 7 ∷ []) ∷ []

pump-frames_example :
    (stream : Bytes) × (r' : Recorder) × (frames messages ≡ ok stream)
    × (pump recorder_channel 4 stream recorder ≡ (ok [], r'))
    × (r'.delivered ≡ messages)
    × IsIdle r'
pump-frames_example =
    pump-frames messages recorder ((omega arith, omega arith), ((omega arith, omega arith), tt))
      (record { waits = refl; asks = refl })

-- A state that is a queue and the calls that have run.
abbrev Log : Type 0
Log = CallQueue ℕ × List ℕ

abbrev run_logged : ℕ → Exec Log (Unit {0})
run_logged n = modify (λ (q, ran). (q, n ∷ ran))

dequeue_call-front_example :
    dequeue_call
      (λ (w : Log). w.0)
      (λ q (w : Log). (q, w.1))
      run_logged
      "f"
      (("f", 1 ∷ 2 ∷ []) ∷ [], [])
    ≡ (ok tt, (insert "f" (2 ∷ []) (("f", 1 ∷ 2 ∷ []) ∷ []), 1 ∷ []))
unfolding lookup
dequeue_call-front_example =
    dequeue_call-front (λ (w : Log). w.0) (λ q (w : Log). (q, w.1)) run_logged "f" 1 (2 ∷ [])
      (("f", 1 ∷ 2 ∷ []) ∷ [], []) (("f", 1 ∷ 2 ∷ []) ∷ [], 1 ∷ []) refl refl refl

waiting-enqueue_call_example :
    waiting {A = ℕ} "f" (enqueue_call "f" 2 (("f", 1 ∷ []) ∷ [])) ≡ 1 ∷ 2 ∷ []
unfolding lookup
waiting-enqueue_call_example = waiting-enqueue_call "f" "f" 2 (("f", 1 ∷ []) ∷ [])

types-append_example :
    (last_type_of {Ty = ℕ} (1 ∷ 2 ∷ 3 ∷ []) ≡ some 3)
    × (remove_last_type_of {Ty = ℕ} (1 ∷ 2 ∷ 3 ∷ []) ≡ some (1 ∷ 2 ∷ []))
types-append_example = types-append (1 ∷ 2 ∷ []) 3

call_function-add_function_example :
    (dict' : FuncDict numbers) × (archive : Bytes) × (add_function numbers false "Calc::add"
        (params_of numbers false number (map (arg_type numbers) two_and_three))
        add
        []
      ≡ some dict')
    × (is_one_way plain_cereal "Calc::add" dict' ≡ ok false)
    × (plain_cereal.deserialize_call false
          (strip_header (plain_cereal.serialize_call false "Calc::add" two_and_three))
        ≡ some ("Calc::add", archive))
    × (call_function plain_cereal "Calc::add" archive dict' ≡ ok (number, add number two_and_three))
    × ((other : String)
        → ("Calc::add" == other) ≡ false
        → find numbers other dict' ≡ find numbers other [])
call_function-add_function_example =
    call_function-add_function plain_cereal false false "Calc::add" number two_and_three add []

deserialize_result-serialize_example :
    (image : Bytes) × (Cereal.deserialize_call numbers false
        (strip_header (Cereal.serialize_call_result numbers false "f" number five))
      ≡ some ("f", image))
    × (Cereal.deserialize_result numbers number image ≡ some (received numbers number five, 9 ∷ []))
deserialize_result-serialize_example =
    deserialize_result-serialize numbers false false "f" number five

-- ===== src/Tests/Fixtures.antt =====
-- The services of unittests/.
use cercall.Base.{◌^◌, ◌≤◌, ◌<◌, ◌≡◌, refl, ◌⊎◌, none, some, Option, [], ◌∷◌, arith}
use cercall.Base.Int.{pos, negsuc, ◌+ℤ◌, pos_part, neg_part}
use cercall.Error.{Error, no_error}
use cercall.Result.{of_value, of_error}
use cercall.Archive.{Arg}
use cercall.Fixtures.Calculator.{add, add_vector, Fits, sum_of, add-sum}
use cercall.Fixtures.Events.{
  SimpleEvent, PolyEvent, real_event_class_three, EventSource, on_service, IsCopy, poly_tick,
  broadcast_copy, poly_tick-IsCopy,
}
use cercall.Tests.Codec.{numbers}
use cercall.Tests.Setup.{plain_cereal, linux, service, success}

abbrev too_large : Error
too_large = record { code = pos 75; category = none; message = "value too large" }

add-sum_example :
    (Fits 31 (sum_of (negsuc 0) (pos 3) (negsuc 2147483647))
      × (add too_large (negsuc 0) (pos 3) (negsuc 2147483647)
          ≡ of_value (sum_of (negsuc 0) (pos 3) (negsuc 2147483647)) no_error))
    ⊎ ((2 ^ 31 ≤ pos_part (sum_of (negsuc 0) (pos 3) (negsuc 2147483647)))
        × (add too_large (negsuc 0) (pos 3) (negsuc 2147483647) ≡ of_error (pos 0) too_large))
    ⊎ ((2 ^ 31 < neg_part (sum_of (negsuc 0) (pos 3) (negsuc 2147483647)))
        × (add too_large (negsuc 0) (pos 3) (negsuc 2147483647)
            ≡ of_value (sum_of (negsuc 0) (pos 3) (negsuc 2147483647) +ℤ pos (2 ^ 32)) no_error))
add-sum_example =
    add-sum too_large (negsuc 0) (pos 3) (negsuc 2147483647) (omega arith, omega arith)
      (omega arith, omega arith) (omega arith, omega arith)

add_below :
    add too_large (negsuc 0) (pos 0) (negsuc 2147483647) ≡ of_value (pos 2147483647) no_error
unfolding add ◌+ℤ◌
add_below = refl

add_vector_pairs :
    add_vector (pos 1 ∷ negsuc 0 ∷ []) (pos 2 ∷ pos 5 ∷ []) ≡ of_value (pos 3 ∷ pos 4 ∷ []) no_error
unfolding add_vector ◌+ℤ◌
add_vector_pairs = refl

add_vector_sizes : add_vector (pos 1 ∷ []) [] ≡ of_value [] no_error
unfolding add_vector
add_vector_sizes = refl

abbrev simple_arg : SimpleEvent → Arg numbers
simple_arg e = (tt, 1)

abbrev poly_arg : PolyEvent → Arg numbers
poly_arg e = (tt, 2)

abbrev source : EventSource numbers (Option PolyEvent)
source = record {
  service = service;
  enabled_event = some (real_event_class_three (pos 0) (("a", pos 1) ∷ []));
  waits = [];
}

poly_tick-IsCopy_example :
    (o : Option PolyEvent) × IsCopy (pos 9) (real_event_class_three (pos 0) (("a", pos 1) ∷ [])) o
    × (poly_tick plain_cereal linux simple_arg poly_arg (pos 9) success source
        ≡ on_service (broadcast_copy plain_cereal linux simple_arg poly_arg o) source)
poly_tick-IsCopy_example =
    poly_tick-IsCopy plain_cereal linux simple_arg poly_arg (pos 9) success
      (real_event_class_three (pos 0) (("a", pos 1) ∷ [])) source refl refl

-- ===== src/Boost/Types.antt =====
-- include/cercall/boost/types.h: how errors and results are written to a Boost archive and read.
use cercall.Base.{Option, none, some, Bool-cases, inl, inr, if◌then◌else◌}
use cercall.Base.Int.{is_zero}
use cercall.Error.{Error, no_error, of_message}
use cercall.Result.{Result, of_error, set_error, set_value}
use cercall.Archive.{received_error}
use cercall.Boost.Archives.{
  Library, Class, error_class, Writer, Reader, Reads, nothing, pure, ◌>>=◌, ◌>>>◌, Reads-pure,
  Reads-bind, Reads-last,
}

module _ (lib : Library) where
  abbrev pub ResultVal : Option lib.Ty → Type 0
  ResultVal none = Unit {0}
  ResultVal (some t) = lib.Val t

  abbrev pub default_result : (t : Option lib.Ty) → ResultVal t
  default_result none = tt
  default_result (some t) = lib.default t

  -- `archive & object`, for an object of a class of cercall.
  abbrev pub save_object : Class lib.Ty → Writer lib.State → Writer lib.State
  save_object c members = lib.save_class c >>> members

  abbrev pub load_object : {A : Type 0} → Class lib.Ty → Reader lib.State A → Reader lib.State A
  load_object c members = lib.load_class c >>= λ _. members

  unfoldable pub save_error : Error → Writer lib.State
  save_error e = lib.save_int e.code >>> lib.save_string e.message

  unfoldable pub load_error : Reader lib.State Error
  load_error =
      lib.load_int >>= λ errCode. lib.load_string >>= λ errMsg. pure (of_message errCode errMsg)

  -- The value is written only when there is no error.
  save_value_of : (t : lib.Ty) → Result (lib.Val t) → Writer lib.State
  save_value_of t res = if is_zero res.error.code then lib.save_value t res.value else nothing

  unfoldable pub save_result : (t : Option lib.Ty) → Result (ResultVal t) → Writer lib.State
  unfolding save_error save_value_of
  save_result none res = save_object error_class (save_error res.error)
  save_result (some t) res = save_object error_class (save_error res.error) >>> save_value_of t res

  -- The rest of `load` after `res.set_error(error)`.
  load_value_of : (t : lib.Ty) → Result (lib.Val t) → Reader lib.State (Result (lib.Val t))
  load_value_of t res =
      if is_zero res.error.code
      then (lib.load_value t >>= λ v. pure (set_value res v))
      else pure res

  -- `load` assigns the parts of a result that `deserialize_result` has made by default.
  unfoldable pub load_result : (t : Option lib.Ty) → Reader lib.State (Result (ResultVal t))
  unfolding load_error load_value_of
  load_result none =
      load_object error_class load_error >>= λ error. pure (set_error (of_error tt no_error) error)
  load_result (some t) = load_object error_class load_error >>= λ error.
      load_value_of t (set_error (of_error (lib.default t) no_error) error)

  -- What is left of a result after its way through an archive.
  abbrev pub arrived : (t : Option lib.Ty) → Result (ResultVal t) → Result (ResultVal t)
  arrived t r = record {
    value = if is_zero r.error.code then r.value else default_result t;
    error = received_error r.error;
  }

  load_error-Reads : (e : Error) → Reads load_error (save_error e) (received_error e)
  unfolding load_error save_error of_message
  load_error-Reads e =
      Reads-bind (λ code. lib.load_string >>= λ message. pure (of_message code message))
        (lib.load_int-Reads e.code)
        (Reads-last (of_message e.code) (lib.load_string-Reads e.message))

  load_error_object-Reads :
      (e : Error)
      → Reads
          (load_object error_class load_error)
          (save_object error_class (save_error e))
          (received_error e)
  load_error_object-Reads e =
      Reads-bind (λ _. load_error) (lib.load_class-Reads error_class) (load_error-Reads e)

  load_value_of-Reads :
      (t : lib.Ty) (r : Result (lib.Val t))
      → Reads
          (load_value_of t (record { value = lib.default t; error = received_error r.error }))
          (save_value_of t r)
          (arrived (some t) r)
  unfolding load_value_of save_value_of set_value
  load_value_of-Reads t r = elim (Bool-cases (is_zero r.error.code)) [
    | inl z ↦ rw z (
        Reads-last (set_value (record { value = lib.default t; error = received_error r.error }))
          (lib.load_value-Reads t r.value))
    | inr z ↦ rw z (Reads-pure (record { value = lib.default t; error = received_error r.error }))
  ]

  -- The value of no type is no value.
  load_void-Reads :
      (r : Result (Unit {0}))
      → Reads
          (load_result none)
          (save_result none r)
          (record { value = tt; error = received_error r.error })
  unfolding load_result save_result set_error of_error
  load_void-Reads r =
      Reads-last (λ error. record { value = tt; error = error }) (load_error_object-Reads r.error)

  pub load_result-Reads :
      (t : Option lib.Ty) (r : Result (ResultVal t))
      → Reads (load_result t) (save_result t r) (arrived t r)
  unfolding load_result save_result set_error of_error
  load_result-Reads none r = load_void-Reads r
  load_result-Reads (some t) r =
      Reads-bind (λ error. load_value_of t (set_error (of_error (lib.default t) no_error) error))
        (load_error_object-Reads r.error) (load_value_of-Reads t r)

-- ===== src/Cereal/Types.antt =====
-- include/cercall/cereal/types.h: how errors and results are written to a Cereal archive.
use cercall.Serialization.{failed}
use cercall.Base.{
  Bool, true, false, not, arith, ◌≡◌, refl, some, [], ◌++◌, if◌then◌else◌, Bool-cases, inl, inr,
  append_assoc,
}
use cercall.Base.Int.{is_zero}
use cercall.Error.{is_error, Error, no_error, of_message}
use cercall.Result.{Result, of_error, set_error, set_value}
use cercall.Archive.{
  Archive, Bytes, Reader, pure, ◌>>=◌, ResultTy, void, value, ResultVal, received_error, received,
}

module _ (lib : Archive) where
  unfoldable pub save_error : Error → Bytes
  save_error e = lib.save_int e.code ++ lib.save_string e.message

  unfoldable pub load_error : Reader Error
  load_error = do errCode ← lib.load_int; errMsg ← lib.load_string; pure (of_message errCode errMsg)

  unfoldable pub save_result : (t : ResultTy lib) → Result (ResultVal lib t) → Bytes
  unfolding save_error
  save_result void res = save_error res.error
  save_result (value t) res =
      save_error res.error ++ (if is_zero res.error.code then lib.save_value t res.value else [])

  -- The rest of `load` after `res.set_error(error)`.
  load_value_of : (t : lib.Ty) → Result (lib.Val t) → Reader (Result (lib.Val t))
  load_value_of t res =
      if is_zero res.error.code then (do v ← lib.load_value t; pure (set_value res v)) else pure res

  -- `load` assigns the parts of a result that `deserialize_result` has made by default.
  unfoldable pub load_result : (t : ResultTy lib) → Reader (Result (ResultVal lib t))
  unfolding load_error load_value_of
  load_result void = do error ← load_error; pure (set_error (of_error tt no_error) error)
  load_result (value t) = do
    error ← load_error
    load_value_of t (set_error (of_error (lib.default t) no_error) error)

  pub load_error-save_error :
      (e : Error) (rest : Bytes) → load_error (save_error e ++ rest) ≡ some (received_error e, rest)
  unfolding load_error save_error of_message
  load_error-save_error e rest = rw (append_assoc, lib.load_int-save, ◌>>=◌, lib.load_string-save)

  pub load_result-save_result :
      (t : ResultTy lib) (r : Result (ResultVal lib t)) (rest : Bytes)
      → load_result t (save_result t r ++ rest) ≡ some (received lib t r, rest)
  unfolding load_result save_result of_error set_error set_value
  load_result-save_result void r rest = rw (load_error-save_error r.error rest, ◌>>=◌) refl
  load_result-save_result (value t) r rest = elim (Bool-cases (is_zero r.error.code)) [
    | inl e ↦
        rw
          (
            append_assoc,
            load_error-save_error r.error,
            ◌>>=◌,
            e,
            load_value_of,
            lib.load_value-save,
          )
          refl
    | inr e ↦ rw (append_assoc, load_error-save_error r.error, ◌>>=◌, e, load_value_of) refl
  ]

  -- An error written as a `Result<void>` is read as a result of any type.
  pub load_result-save_error :
      (t : ResultTy lib) (e : Error) (rest : Bytes)
      → is_error e ≡ true
      → load_result t (save_result void (record { value = tt; error = e }) ++ rest)
        ≡ some (failed lib t (received_error e), rest)
  unfolding load_result save_result of_error set_error set_value
  load_result-save_error void e rest h = rw (load_error-save_error e rest, ◌>>=◌) refl
  load_result-save_error (value t) e rest h =
      rw (load_error-save_error e rest, ◌>>=◌, load_value_of)
        (rw (not_true (is_zero e.code) h) refl)
    where
      not_true : (b : Bool) → not b ≡ true → b ≡ false
      not_true b h = ground arith

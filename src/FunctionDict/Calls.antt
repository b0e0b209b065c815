-- ===== src/FunctionDict/Calls.antt =====
-- A call by name reaches the function that was added under the name, with the arguments of the call.
use cercall.Base.{
  ◌≡◌, refl, ◌∙◌, Bool, true, false, some, String, List, [], ◌∷◌, ◌++◌, map, append_assoc,
  append-nil, insert, lookup-insert, ◌==◌, string_eq, if◌then◌else◌, lookup-insert_self,
}
use cercall.Base.Exec.{ok}
use cercall.Archive.{Archive, Bytes, ◌>>=◌, Arg, arg_type, ResultTy, void}
use cercall.Serialization.{Serialization}
use cercall.Messenger.{strip_header}
use cercall.TypeUtil.{types-append}
use cercall.FunctionDict.{
  ParamTy, plain, closure, Behaviour, DictEntry, FuncDict, result_type_traits, add_function, find,
  call_func, deserialize_args, call, call_function, is_one_way, plain_types,
}

module _ {lib : Archive} (S : Serialization lib) where
  pub deserialize_args-args_image :
      (args collected : List (Arg lib)) (rest : Bytes)
      → deserialize_args S (map (arg_type lib) args) collected (S.args_image args ++ rest)
        ≡ some (collected ++ args, S.args_image [] ++ rest)
  unfolding deserialize_args
  deserialize_args-args_image [] collected rest = rw append-nil
  deserialize_args-args_image ((t, v) ∷ args) collected rest =
      rw (S.deserialize_arg-args_image, ◌>>=◌)
        (deserialize_args-args_image args (collected ++ (t, v) ∷ []) rest
          ∙ rw (append_assoc collected ((t, v) ∷ []) args))

module _ (lib : Archive) where
  plain_types-map : (ts : List lib.Ty) → plain_types lib (map plain ts) ≡ some ts
  unfolding plain_types
  plain_types-map [] = refl
  plain_types-map (t ∷ ts) = rw (plain_types-map ts)

  -- The parameters of a function: a one-way function has values, any other a closure behind them.
  abbrev pub params_of : Bool → ResultTy lib → List lib.Ty → List (ParamTy lib)
  params_of true r ts = map plain ts
  params_of false r ts = map plain ts ++ closure r ∷ []

  abbrev pub result_of : Bool → ResultTy lib → ResultTy lib
  result_of true r = void
  result_of false r = r

  result_type_traits-params_of :
      (one_way : Bool) (r : ResultTy lib) (ts : List lib.Ty)
      → result_type_traits lib one_way (params_of one_way r ts) ≡ some (result_of one_way r, ts)
  unfolding result_type_traits
  result_type_traits-params_of true r ts = rw (plain_types-map ts)
  result_type_traits-params_of false r ts =
      let (last, front) = types-append (map plain ts) (closure r) in
      rw (last, front) (rw (plain_types-map ts))

module _ {lib : Archive} (S : Serialization lib) where
  abbrev Function : Type 0
  Function = (r : ResultTy lib) → List (Arg lib) → Behaviour lib r

  entry_of : Bool → ResultTy lib → List lib.Ty → Function → DictEntry lib
  entry_of one_way r ts f = record {
    func = record {
      one_way = one_way;
      result_type = result_of lib one_way r;
      args_tuple = ts;
      func = f (result_of lib one_way r);
    };
    one_way = one_way;
  }

  add_function-insert :
      (one_way : Bool) (name : String) (r : ResultTy lib) (ts : List lib.Ty) (f : Function)
      (dict : FuncDict lib)
      → add_function lib one_way name (params_of lib one_way r ts) f dict
        ≡ some (insert name (entry_of one_way r ts f) dict)
  unfolding add_function entry_of
  add_function-insert one_way name r ts f dict = rw (result_type_traits-params_of lib one_way r ts)

  find-insert :
      (name : String) (e : DictEntry lib) (dict : FuncDict lib)
      → find lib name (insert name e dict) ≡ ok e
  unfolding find
  find-insert name e dict = rw (lookup-insert_self name e dict)

  -- After a function has been added under a name, with parameters of some types, behind them the
  -- closure if it is not one-way, the dictionary knows whether it is one-way, and the message of a
  -- call by that name with arguments of those types is read as this name and an archive on which
  -- `call_function` calls the function with these arguments; a one-way function gives no results.
  -- What is found under any other name is what was found before.
  pub call_function-add_function :
      (one_way reused : Bool) (name : String) (r : ResultTy lib) (args : List (Arg lib))
      (f : Function) (dict : FuncDict lib)
      → (dict' : FuncDict lib) × (archive : Bytes) × (add_function lib one_way name
            (params_of lib one_way r (map (arg_type lib) args))
            f
            dict
          ≡ some dict')
        × (is_one_way S name dict' ≡ ok one_way)
        × (S.deserialize_call reused (strip_header (S.serialize_call reused name args))
            ≡ some (name, archive))
        × (call_function S name archive dict'
            ≡ ok (
              result_of lib one_way r,
              (if one_way
                  then record (f (result_of lib one_way r) args) { results = [] }
                  else f (result_of lib one_way r) args),
            ))
        × ((other : String) → (name == other) ≡ false → find lib other dict' ≡ find lib other dict)
  unfolding is_one_way call_function call entry_of call_func find
  call_function-add_function one_way reused name r args f dict =
      let ts = map (arg_type lib) args in
      let e = entry_of one_way r ts f in
      (
        insert name e dict,
        S.args_image args ++ S.tail reused,
        add_function-insert one_way name r ts f dict,
        rw (lookup-insert_self name e dict),
        S.deserialize_call-serialize_call reused name args,
        rw (lookup-insert_self name e dict)
            (rw (deserialize_args-args_image S args [] (S.tail reused)) refl),
        λ other ne. rw (lookup-insert name other e dict) (rw ne),
      )

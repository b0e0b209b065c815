-- ===== src/FunctionDict.antt =====
-- include/cercall/details/functiondict.h: the functions of a service by their names. An entry reads
-- the arguments of a call from the archive and calls the service's own function with them.
-- The service's function is the user's: what it does with its closure is a list of results that it
-- gives at once, in their order, and an exception, if it throws one in the end. A result that it
-- gives later is a step of the service.
pub mod Calls
use Prim.Native.String.{◌++◌ as append_text}
use cercall.Base.{
  Bool, true, false, Option, none, some, String, List, [], ◌∷◌, ◌++◌, Map, lookup, insert,
  string_eq, if◌then◌else◌,
}
use cercall.Base.Exec.{
  Outcome, ok, throws, aborts, undefined, out_of_fuel, logic_error, archive_error,
}
use cercall.Result.{Result}
use cercall.Archive.{Archive, Bytes, Reader, pure, ◌>>=◌, Arg, ResultTy, void, value, ResultVal}
use cercall.Serialization.{Serialization}
use cercall.TypeUtil.{last_type_of, remove_last_type_of}

module _ (lib : Archive) where
  -- The type of a parameter of a service function: a value, or `Closure<R>`.
  pub data ParamTy : Type 0 where
    plain : lib.Ty → ParamTy
    closure : ResultTy lib → ParamTy

  pub record Behaviour (r : ResultTy lib) : Type 0 where
    pub results : List (Result (ResultVal lib r))
    pub thrown : Option String

  -- `FunctionCaller`: `myFunc` with the template's `OneWay`, `R` and `ArgsTuple`.
  pub record FunctionCaller : Type 0 where
    pub one_way : Bool
    pub result_type : ResultTy lib
    pub args_tuple : List lib.Ty
    pub func : List (Arg lib) → Behaviour result_type

  pub record DictEntry : Type 0 where
    pub func : FunctionCaller
    pub one_way : Bool

  abbrev pub FuncDict : Type 0
  FuncDict = Map String DictEntry

  plain_types : List ParamTy → Option (List lib.Ty)
  plain_types [] = some []
  plain_types (plain t ∷ params) = elim (plain_types params) [
    | none ↦ none
    | some ts ↦ some (t ∷ ts)
  ]
  plain_types (closure r ∷ params) = none

  closure_type : Option ParamTy → Option (ResultTy lib)
  closure_type (some (closure r)) = some r
  closure_type _ = none

  paired : Option (ResultTy lib) → Option (List lib.Ty) → Option (ResultTy lib × List lib.Ty)
  paired (some r) (some ts) = some (r, ts)
  paired _ _ = none

  -- `ResT` and `ArgsTuple` of `add_function`: a one-way function has values for parameters, any other
  -- has a closure after them. Else the program does not compile.
  unfoldable pub result_type_traits : Bool → List ParamTy → Option (ResultTy lib × List lib.Ty)
  unfolding plain_types closure_type paired
  result_type_traits true params = paired (some void) (plain_types params)
  result_type_traits false params =
      paired (closure_type (last_type_of params))
        (elim (remove_last_type_of params) [ none ↦ none | some front ↦ plain_types front ])

  add_entry :
      Bool
      → String
      → ((r : ResultTy lib) → List (Arg lib) → Behaviour r)
      → Option (ResultTy lib × List lib.Ty)
      → FuncDict
      → Option FuncDict
  add_entry oneWay functionName function none dict = none
  add_entry oneWay functionName function (some (r, ts)) dict = some (
      insert functionName
        (record {
          func = record { one_way = oneWay; result_type = r; args_tuple = ts; func = function r };
          one_way = oneWay;
        })
        dict)

  -- `add_function` of a function that is given for the result type of its closure.
  unfoldable pub add_function :
      Bool
      → String
      → List ParamTy
      → ((r : ResultTy lib) → List (Arg lib) → Behaviour r)
      → FuncDict
      → Option FuncDict
  unfolding add_entry
  add_function oneWay functionName params function dict =
      add_entry oneWay functionName function (result_type_traits oneWay params) dict

  -- `find`
  found_entry : String → Option DictEntry → Outcome DictEntry
  found_entry functionName none =
      throws (logic_error (append_text functionName " not found in function dictionary"))
  found_entry functionName (some entry) = ok entry

  unfoldable pub find : String → FuncDict → Outcome DictEntry
  unfolding found_entry
  find functionName dict = found_entry functionName (lookup functionName dict)

  -- `call_func`: a one-way function has no closure to call.
  unfoldable pub call_func : (f : FunctionCaller) → List (Arg lib) → Behaviour f.result_type
  call_func f args = if f.one_way then record (f.func args) { results = [] } else f.func args

module _ {lib : Archive} (S : Serialization lib) where
  -- The arguments are read in the order of `ArgsTuple`, and collected.
  unfoldable pub deserialize_args : List lib.Ty → List (Arg lib) → Reader (List (Arg lib))
  deserialize_args [] collected = pure collected
  deserialize_args (head ∷ tail) collected = do
    t ← S.deserialize_arg head
    deserialize_args tail (collected ++ (head, t) ∷ [])

  -- What a call does, with the type of its results.
  abbrev pub Called : Type 0
  Called = (r : ResultTy lib) × Behaviour lib r

  called : (f : FunctionCaller lib) → Option (List (Arg lib) × Bytes) → Outcome Called
  called f none = throws archive_error
  called f (some (args, rest)) = ok (f.result_type, call_func lib f args)

  -- `FunctionCaller::operator()`
  unfoldable pub call : FunctionCaller lib → Bytes → Outcome Called
  unfolding called
  call f args = called f (deserialize_args f.args_tuple [] args)

  call_entry : Outcome (DictEntry lib) → Bytes → Outcome Called
  call_entry (ok entry) args = call entry.func args
  call_entry (throws x) args = throws x
  call_entry aborts args = aborts
  call_entry undefined args = undefined
  call_entry out_of_fuel args = out_of_fuel

  unfoldable pub call_function : String → Bytes → FuncDict lib → Outcome Called
  unfolding call_entry
  call_function functionName args dict = call_entry (find lib functionName dict) args

  values_read : Option (List (Arg lib) × Bytes) → Outcome (List (Arg lib))
  values_read none = throws archive_error
  values_read (some (values, rest)) = ok values

  entry_args : Outcome (DictEntry lib) → Bytes → Outcome (List (Arg lib))
  entry_args (ok entry) args = values_read (deserialize_args entry.func.args_tuple [] args)
  entry_args (throws x) args = throws x
  entry_args aborts args = aborts
  entry_args undefined args = undefined
  entry_args out_of_fuel args = out_of_fuel

  -- The arguments that `call_function` calls a function with.
  unfoldable pub read_args : String → Bytes → FuncDict lib → Outcome (List (Arg lib))
  unfolding entry_args values_read
  read_args functionName args dict = entry_args (find lib functionName dict) args

  entry_one_way : Outcome (DictEntry lib) → Outcome Bool
  entry_one_way (ok entry) = ok entry.one_way
  entry_one_way (throws x) = throws x
  entry_one_way aborts = aborts
  entry_one_way undefined = undefined
  entry_one_way out_of_fuel = out_of_fuel

  unfoldable pub is_one_way : String → FuncDict lib → Outcome Bool
  unfolding entry_one_way
  is_one_way functionName dict = entry_one_way (find lib functionName dict)

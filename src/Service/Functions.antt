-- ===== src/Service/Functions.antt =====
-- The functions that include/cercall/service.h is given by `O_ADD_SERVICE_FUNCTIONS_OF`.
use Prim.Native.String.{◌++◌ as append_text}
use cercall.Base.{Bool, true, false, none, some, String, List, [], ◌∷◌, nat_eq, ◌&&◌}
use cercall.Base.Exec.{Exec, pure, gets, modify, ◌>>=◌, ◌>>◌}
use cercall.Error.{System}
use cercall.Archive.{Archive, Arg, ResultTy}
use cercall.Serialization.{Serialization}
use cercall.FunctionDict.{FuncDict, ParamTy, Behaviour, add_function}
use cercall.Service.State.{Service, check_thread_id}

module _ {lib : Archive} (S : Serialization lib) (sys : System) (type_name : String) where
  abbrev pub make_fully_qualified_name : String → String
  make_fully_qualified_name shortFuncName = append_text (append_text type_name "::") shortFuncName

  -- A member function of the service class, as `O_ADD_SERVICE_FUNCTIONS_OF` lists it.
  pub record MemberFunction : Type 0 where
    pub name : String
    pub params : List (ParamTy lib)
    pub function : (r : ResultTy lib) → List (Arg lib) → Behaviour lib r

  set_dict : FuncDict lib → Exec (Service lib) (Unit {0})
  set_dict dict = modify (λ s. record s { func_dict = dict })

  add_member_function : Bool → MemberFunction → Exec (Service lib) Bool
  add_member_function oneWay f = do
    check_thread_id lib "cercall::Service::add_functions"
    dict ← gets (λ s. s.func_dict)
    elim (add_function lib oneWay (make_fully_qualified_name f.name) f.params f.function dict) [
      | none ↦ pure false
      | some dict' ↦ set_dict dict' >> pure true
    ]

  -- `add_functions`: `false` if a function has no parameters that fit, which does not compile.
  unfoldable pub add_functions : Bool → List MemberFunction → Exec (Service lib) Bool
  unfolding add_member_function set_dict
  add_functions oneWay [] = pure true
  add_functions oneWay (f ∷ funcs) = do
    fits ← add_member_function oneWay f
    rest ← add_functions oneWay funcs
    pure (fits && rest)

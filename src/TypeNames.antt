-- ===== src/TypeNames.antt =====
-- include/libfatbat/print_type.hpp: the names of types, for a log. What the compiler says of a
-- type, its `typeid` name and what `abi::__cxa_demangle` makes of that, is given with the type.
pub mod Splitting
use libfatbat.Prelude.{ℕ, Bool, List, [], ◌∷◌, ◌++◌, Option, none, some, if◌then◌else◌}
use libfatbat.Base64.{codes}

-- `demangled` is none where `__cxa_demangle` gives a null pointer.
pub data CppType : Type 0 where
  void : CppType
  named : (typeid_name : List ℕ) → (demangled : Option (List ℕ)) → CppType

-- `demangle_helper<T>::type_id()`, without and with the demangler.
abbrev pub type_id_builtin : List ℕ → Option (List ℕ) → List ℕ
type_id_builtin typeid_name demangled = typeid_name

abbrev pub type_id_demangled : List ℕ → Option (List ℕ) → List ℕ
type_id_demangled typeid_name none = typeid_name
type_id_demangled typeid_name (some name) = name

-- `cxx_type_id<T>().type_id()`; `cxxabi_supported` is whether there is a header cxxabi.h.
unfoldable pub cxx_type_id : Bool → List ℕ → Option (List ℕ) → List ℕ
cxx_type_id cxxabi_supported typeid_name demangled =
    if cxxabi_supported
    then type_id_demangled typeid_name demangled
    else type_id_builtin typeid_name demangled

-- `print_type<T>()`, of which the one for void stands for no type at all.
unfoldable pub print_one : Bool → CppType → List ℕ
unfolding cxx_type_id
print_one cxxabi_supported void = codes "<>"
print_one cxxabi_supported (named typeid_name demangled) =
    cxx_type_id cxxabi_supported typeid_name demangled

-- `print_type<Ts...>(delim)`.
unfoldable pub print_type : Bool → List ℕ → List CppType → List ℕ
unfolding print_one
print_type cxxabi_supported delim [] = print_one cxxabi_supported void
print_type cxxabi_supported delim (t ∷ []) = print_one cxxabi_supported t
print_type cxxabi_supported delim (t ∷ u ∷ us) =
    (print_one cxxabi_supported t ++ delim) ++ print_type cxxabi_supported delim (u ∷ us)

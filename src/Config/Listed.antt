-- ===== src/Config/Listed.antt =====
-- The functions that `LoadReplayorConfig` of packages/config/config.go names in its error message,
-- and those that it accepts.
use mathlib.Core.List.{Mem, Perm}
use mathlib.Core.List.Perm
use replayor.Prelude.{ℕ, ◌≡◌, ◌≢◌, ◌↔◌, ap, String, true, List, Dict, none, lookup, eq_iff, arith}
use replayor.Prelude.Ascending.{
  sort_strings, join, IsAscending, sort_strings-eq_of_Perm, sort_strings-Perm,
  sort_strings-IsAscending,
}
use replayor.Strategies.Tables.Names.{valid_names, keys, get_valid_names, is_found, Mem-keys}
use replayor.Config.{check_function}

module _ (signatures : Dict (List ℕ)) where
  check_function-is_found :
      (invalid function : String)
      → function ≢ ""
      → (is_found (lookup function signatures) ≡ true)
        ↔ (check_function signatures invalid function ≡ none)
  unfolding check_function
  check_function-is_found invalid function named = ground (arith, eq_iff function "")

  -- For a map of functions, an order in which `range` may give its keys and a function that is not
  -- empty: what is listed does not depend on the order; the names come in ascending order; and the
  -- function is among them if and only if the validation accepts it.
  pub valid_names_lem :
      (names : List String) (invalid function : String)
      → Perm names (keys signatures)
      → function ≢ ""
      → (valid_names names ≡ get_valid_names signatures)
        × IsAscending (sort_strings names)
        × (Mem function (sort_strings names) ↔ (check_function signatures invalid function ≡ none))
  unfolding valid_names get_valid_names
  valid_names_lem names invalid function ranged named =
      let found = check_function-is_found invalid function named in
      let listed = Mem-keys function signatures in
      let same = Perm.mem_iff (Perm.trans (sort_strings-Perm names) ranged) in
      (
        ap (λ sorted. join sorted ", ") (sort_strings-eq_of_Perm ranged),
        sort_strings-IsAscending names,
        (λ m. found.0 (listed.0 (same.0 m)), λ e. same.1 (listed.1 (found.1 e))),
      )

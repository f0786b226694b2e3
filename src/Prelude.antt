-- ===== src/Prelude.antt =====
-- The names that the other modules share: the libraries', passed on, and those of the children.
mod Tests
mod Lists
mod Texts
pub mod Int
pub mod Strconv
pub mod Regexp
pub mod Floats
pub mod Assoc
pub mod Sets
pub mod Chunks
pub mod Glob
pub use Tests.*
pub use Lists.*
pub use Texts.{
  Text, codes, concat, join_texts, show_list, sort_texts, text_eq, text_eq_iff, text_eq_refl,
  lower_code, push_head,
}
unfoldable pub use Texts.{
  txt, is_space, trim_left, trim_right, trim_space, to_lower, equal_fold, has_prefix, has_suffix,
  contains, trim_prefix, trim_suffix, split, cut_first, cut_last, fields, byte_len,
}
pub use Prim.Native.Nat.{ℕ, zero, suc, ◌+◌, ◌-◌, ◌*◌, ◌/◌, ◌%◌, ◌^◌, ◌≤◌, ◌<◌}
pub use Prim.Native.String.{String}
pub use mathlib.Core.Path.{◌≡◌, refl, sym, ap, ◌∙◌}
pub use mathlib.Core.Logic.{◌≢◌, ◌↔◌, ◌⊎◌, inl, inr}
pub use mathlib.Core.Bool.{Bool, true, false, not, ◌&&◌, ◌||◌}
pub use mathlib.Core.Option.{Option, none, some}
pub use mathlib.Core.List.{List, [], ◌∷◌, ◌++◌, map}
pub use native.Mathlib.Omega.{arith}

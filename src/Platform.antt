-- ===== src/Platform.antt =====
-- The functions of JavaScript's strings whose tables are Unicode's, the order that `sort` uses, and how
-- large numbers are rounded and printed. The model takes them as given.
pub mod Plain
use nats_demo.Common.{ℕ, Bool, String}

pub record Platform : Type 0 where
  pub to_lower_case : String → String
  pub to_upper_case : String → String
  pub trim : String → String
  -- `s` stands before or beside `t` in the order of `Array.prototype.sort`.
  pub before : String → String → Bool
  -- `${n + 1}` where `n` is the number nearest to the given one, from 2^53 on
  pub rounded_successor : ℕ → String

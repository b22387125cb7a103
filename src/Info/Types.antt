-- ===== src/Info/Types.antt =====
-- The interfaces of frontend/src/content/natsInfo.ts.
use nats_demo.Common.{String, List, [], ◌∷◌, Option, ◌+s◌}

pub record InfoQnA : Type 0 where
  pub question : String
  pub answer : String
  pub formula : Option String

-- A missing list of questions is the empty one: the popover shows neither.
pub record NatsComponentInfo : Type 0 where
  pub id : String
  pub title : String
  pub role : String
  pub concepts : List String
  pub demo_usage : String
  pub trivia : Option String
  pub diagram : Option String
  pub qna : List InfoQnA

-- `lines.join("\n")`
abbrev pub join_lines : List String → String
join_lines [] = ""
join_lines (l ∷ []) = l
join_lines (l ∷ m ∷ ls) = l +s "\n" +s join_lines (m ∷ ls)

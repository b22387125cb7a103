-- ===== src/Addressing/Laws.antt =====
-- The tokens of a subject, and the columns of frontend/src/components/AddressingPanel.tsx.
use Prim.Native.String.{String}
use nats_demo.Common.{◌+◌, ◌≡◌, arith, ◌+s◌}
use text.Mathlib.TextLemmas.{nil-append, cons-append}
use nats_demo.Addressing.{token_count}

-- A subject that is put together from two parts has the tokens of both.
pub token_count-join : (s t : String) → token_count (s +s "." +s t) ≡ token_count s + token_count t
unfolding token_count
token_count-join String.[] t = rw nil-append (rw (cons-append, nil-append) (omega arith))
token_count-join (String.◌∷◌ c s) t = rw cons-append (ground (arith, token_count-join s t))

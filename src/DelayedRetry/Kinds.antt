-- ===== src/DelayedRetry/Kinds.antt =====
-- The flags by which frontend/src/components/DelayedRetryPanel.tsx disables its buttons, and which of them the
-- handler of an event turns on.
use nats_demo.Common.{◌≡◌, Bool, true, false, Option, none, some, arith, if◌then◌else◌}
use nats_demo.Panel.Kinds.{Kinds}
use nats_demo.DelayedRetry.{DelayedRetry}
use nats_demo.DelayedRetry.Acting.{RetryEvent, trigger_nak, trigger_ack_wait, trigger_schedule}

pub data RetryKind : Type 0 where
  submitting_nak submitting_ack_wait scheduling : RetryKind

pub record Flags : Type 0 where
  pub is_submitting_nak : Bool
  pub is_submitting_ack_wait : Bool
  pub is_scheduling : Bool

abbrev pub flags : DelayedRetry → Flags
flags s = record {
  is_submitting_nak = s.is_submitting_nak;
  is_submitting_ack_wait = s.is_submitting_ack_wait;
  is_scheduling = s.is_scheduling;
}

abbrev pub among : RetryKind → Flags → Bool
among submitting_nak f = f.is_submitting_nak
among submitting_ack_wait f = f.is_submitting_ack_wait
among scheduling f = f.is_scheduling

abbrev pub flag : RetryKind → DelayedRetry → Bool
flag κ s = among κ (flags s)

abbrev pub set_flag : RetryKind → Bool → DelayedRetry → DelayedRetry
set_flag submitting_nak b s = record s { is_submitting_nak = b }
set_flag submitting_ack_wait b s = record s { is_submitting_ack_wait = b }
set_flag scheduling b s = record s { is_scheduling = b }

abbrev pub same : RetryKind → RetryKind → Bool
same submitting_nak submitting_nak = true
same submitting_ack_wait submitting_ack_wait = true
same scheduling scheduling = true
same _ _ = false

abbrev pub kind : RetryEvent → Option RetryKind
kind trigger_nak = some submitting_nak
kind trigger_ack_wait = some submitting_ack_wait
kind trigger_schedule = some scheduling
kind _ = none

pub same_eq : (κ μ : RetryKind) → same κ μ ≡ true → κ ≡ μ
same_eq submitting_nak μ h = ground arith
same_eq submitting_ack_wait μ h = ground arith
same_eq scheduling μ h = ground arith

pub flag-set_flag :
    (κ μ : RetryKind) (b : Bool) (s : DelayedRetry)
    → flag κ (set_flag μ b s) ≡ (if same κ μ then b else flag κ s)
flag-set_flag submitting_nak μ b s = ground arith
flag-set_flag submitting_ack_wait μ b s = ground arith
flag-set_flag scheduling μ b s = ground arith

abbrev pub kinds : Kinds DelayedRetry RetryEvent
kinds = record {
  Kind = RetryKind;
  same = same;
  flag = flag;
  set_flag = set_flag;
  kind = kind;
  same_eq = same_eq;
  flag-set_flag = flag-set_flag;
}

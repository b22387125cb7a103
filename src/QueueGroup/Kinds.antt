-- ===== src/QueueGroup/Kinds.antt =====
-- The flags by which frontend/src/components/QueueGroupPanel.tsx disables its buttons, and which of them the
-- handler of an event turns on.
use nats_demo.Common.{◌≡◌, Bool, true, false, Option, none, some, arith, if◌then◌else◌}
use nats_demo.Panel.Kinds.{Kinds}
use nats_demo.QueueGroup.{QueueGroup}
use nats_demo.QueueGroup.Acting.{QueueEvent, change_workers, reset, send}

pub data QueueKind : Type 0 where
  updating sending resetting : QueueKind

pub record Flags : Type 0 where
  pub is_updating_workers : Bool
  pub is_sending : Bool
  pub is_resetting : Bool

abbrev pub flags : QueueGroup → Flags
flags s = record {
  is_updating_workers = s.is_updating_workers;
  is_sending = s.is_sending;
  is_resetting = s.is_resetting;
}

abbrev pub among : QueueKind → Flags → Bool
among updating f = f.is_updating_workers
among sending f = f.is_sending
among resetting f = f.is_resetting

abbrev pub flag : QueueKind → QueueGroup → Bool
flag κ s = among κ (flags s)

abbrev pub set_flag : QueueKind → Bool → QueueGroup → QueueGroup
set_flag updating b s = record s { is_updating_workers = b }
set_flag sending b s = record s { is_sending = b }
set_flag resetting b s = record s { is_resetting = b }

abbrev pub same : QueueKind → QueueKind → Bool
same updating updating = true
same sending sending = true
same resetting resetting = true
same _ _ = false

abbrev pub kind : QueueEvent → Option QueueKind
kind (change_workers w) = some updating
kind reset = some resetting
kind send = some sending
kind _ = none

pub same_eq : (κ μ : QueueKind) → same κ μ ≡ true → κ ≡ μ
same_eq updating μ h = ground arith
same_eq sending μ h = ground arith
same_eq resetting μ h = ground arith

pub flag-set_flag :
    (κ μ : QueueKind) (b : Bool) (s : QueueGroup)
    → flag κ (set_flag μ b s) ≡ (if same κ μ then b else flag κ s)
flag-set_flag updating μ b s = ground arith
flag-set_flag sending μ b s = ground arith
flag-set_flag resetting μ b s = ground arith

abbrev pub kinds : Kinds QueueGroup QueueEvent
kinds = record {
  Kind = QueueKind;
  same = same;
  flag = flag;
  set_flag = set_flag;
  kind = kind;
  same_eq = same_eq;
  flag-set_flag = flag-set_flag;
}

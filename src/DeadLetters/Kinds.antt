-- ===== src/DeadLetters/Kinds.antt =====
-- The flags by which frontend/src/components/DLQPanel.tsx disables its buttons, and which of them the
-- handler of an event turns on.
use nats_demo.Common.{◌≡◌, Bool, true, false, Option, none, some, arith, if◌then◌else◌}
use nats_demo.Panel.Kinds.{Kinds}
use nats_demo.DeadLetters.{DlqPanel}
use nats_demo.DeadLetters.Acting.{
  DlqEvent, setup, cleanup, send_failing, reprocess_all, purge, reprocess_single,
}

pub data DlqKind : Type 0 where
  submitting reprocessing purging setting_up cleaning_up : DlqKind

pub record Flags : Type 0 where
  pub is_submitting : Bool
  pub is_reprocessing : Bool
  pub is_purging : Bool
  pub is_setting_up : Bool
  pub is_cleaning_up : Bool

abbrev pub flags : DlqPanel → Flags
flags s = record {
  is_submitting = s.is_submitting;
  is_reprocessing = s.is_reprocessing;
  is_purging = s.is_purging;
  is_setting_up = s.is_setting_up;
  is_cleaning_up = s.is_cleaning_up;
}

abbrev pub among : DlqKind → Flags → Bool
among submitting f = f.is_submitting
among reprocessing f = f.is_reprocessing
among purging f = f.is_purging
among setting_up f = f.is_setting_up
among cleaning_up f = f.is_cleaning_up

abbrev pub flag : DlqKind → DlqPanel → Bool
flag κ s = among κ (flags s)

abbrev pub set_flag : DlqKind → Bool → DlqPanel → DlqPanel
set_flag submitting b s = record s { is_submitting = b }
set_flag reprocessing b s = record s { is_reprocessing = b }
set_flag purging b s = record s { is_purging = b }
set_flag setting_up b s = record s { is_setting_up = b }
set_flag cleaning_up b s = record s { is_cleaning_up = b }

abbrev pub same : DlqKind → DlqKind → Bool
same submitting submitting = true
same reprocessing reprocessing = true
same purging purging = true
same setting_up setting_up = true
same cleaning_up cleaning_up = true
same _ _ = false

abbrev pub kind : DlqEvent → Option DlqKind
kind setup = some setting_up
kind cleanup = some cleaning_up
kind send_failing = some submitting
kind reprocess_all = some reprocessing
kind (reprocess_single job_id) = some reprocessing
kind purge = some purging
kind _ = none

pub same_eq : (κ μ : DlqKind) → same κ μ ≡ true → κ ≡ μ
same_eq submitting μ h = ground arith
same_eq reprocessing μ h = ground arith
same_eq purging μ h = ground arith
same_eq setting_up μ h = ground arith
same_eq cleaning_up μ h = ground arith

pub flag-set_flag :
    (κ μ : DlqKind) (b : Bool) (s : DlqPanel)
    → flag κ (set_flag μ b s) ≡ (if same κ μ then b else flag κ s)
flag-set_flag submitting μ b s = ground arith
flag-set_flag reprocessing μ b s = ground arith
flag-set_flag purging μ b s = ground arith
flag-set_flag setting_up μ b s = ground arith
flag-set_flag cleaning_up μ b s = ground arith

abbrev pub kinds : Kinds DlqPanel DlqEvent
kinds = record {
  Kind = DlqKind;
  same = same;
  flag = flag;
  set_flag = set_flag;
  kind = kind;
  same_eq = same_eq;
  flag-set_flag = flag-set_flag;
}

-- ===== src/Publisher/Kinds.antt =====
-- The handlers of frontend/src/components/CoreFlow/CoreFlowPublisher.tsx that publish a batch, and what
-- the others leave as it is.
use nats_demo.Common.{
  ℕ, zero, suc, ◌≡◌, refl, ◌∙◌, ◌+s◌, decimal, Bool, true, false, String, Option, none, some,
  str_eq, if◌then◌else◌,
}
use nats_demo.Task.{Result, Failure, ok, err, message, settle, update, catching, ◌>>=◌}
use nats_demo.Task.Keeping.{
  Maintains-done, Maintains-update, Maintains-step, Maintains-settle, Maintains-call,
  Maintains-bind, Maintains-catching,
}
use nats_demo.Panel.Kinds.{Kinds, Acts, LeavesAll, Spares}
use nats_demo.Panel.Taking.{raised_then-Takes, set_flag-Lowers}
use nats_demo.Api.{Job, Json}
use nats_demo.Platform.{Platform}
use nats_demo.Props.{await_submit}
use nats_demo.Publisher.Form.{
  PublishedReceipt, Form, FormHandler, push_receipt, set_json_error, regen_job_id,
  regen_nats_msg_id, format_payload_json, reset_to_default_payload,
}
use nats_demo.Publisher.Send.{renumber, handle_send, handle_batch_publish, batch_from}
use nats_demo.Publisher.NextId.{match_suffix, successor_text, following, next_id}
use nats_demo.Publisher.Acting.{
  PublishEvent, show_info, set_nats_msg_id, set_content_type, set_source, set_job_id, set_job_type,
  set_payload_str, remove_header, update_header, toggle_headers, add_header, regen_msg_id, regen_id,
  format_payload, reset_payload, send, batch, Given, react,
}

-- The one kind of handlers that has a flag of its own: they publish a batch.
pub data Batching : Type 0 where
  batching : Batching

abbrev kind : PublishEvent → Option Batching
kind (batch count) = some batching
kind _ = none

pub same_eq : (κ μ : Batching) → true ≡ true → κ ≡ μ
same_eq batching batching h = refl

abbrev pub kinds : Kinds Form PublishEvent
kinds = record {
  Kind = Batching;
  same = λ κ μ. true;
  flag = λ κ s. s.is_batch_publishing;
  set_flag = λ κ b s. record s { is_batch_publishing = b };
  kind = kind;
  same_eq = same_eq;
  flag-set_flag = λ κ μ b s. refl;
}

module _ (js : Platform) (parse_json : String → Result Json) (f : Form) where
  renumber-Spares :
      (num : ℕ) (s : Form)
      → (renumber js parse_json f num s).is_batch_publishing ≡ s.is_batch_publishing
  unfolding renumber
  renumber-Spares num s =
      elim (match_suffix f.job_id)
        as (λ o.
          Form.is_batch_publishing (elim o [
            | some found ↦ record s {
              job_id = following js found;
              nats_msg_id =
                  if str_eq (js.trim f.nats_msg_id) ""
                  then s.nats_msg_id
                  else elim (next_id js f.nats_msg_id) [
                    | some next ↦ next
                    | none ↦ "msg-" +s successor_text js found.1
                  ];
            }
            | none ↦ record s {
              job_id = "job-" +s decimal num;
              nats_msg_id =
                  if str_eq (js.trim f.nats_msg_id) ""
                  then s.nats_msg_id
                  else "msg-" +s decimal num;
            }
          ])
          ≡ s.is_batch_publishing) [ some found ↦ refl | none ↦ refl ]

  -- A job is published, and the receipt and what comes after it follow.
  published-LeavesAll :
      (job : Job) (receipt : PublishedReceipt) (rest : FormHandler)
      → LeavesAll kinds rest
      → LeavesAll kinds (await_submit job >>= λ _. (update (push_receipt receipt) >>= λ _. rest))
  unfolding push_receipt
  published-LeavesAll job receipt rest leaves κ b =
      Maintains-bind _ _ (Maintains-call _ _ (λ r. Maintains-settle r (λ a e. tt)))
        (λ a v. Maintains-step _ _ (λ s i. i) (leaves κ b))

  -- The payload is parsed, and what goes wrong is shown.
  parsed-LeavesAll :
      (go : Json → FormHandler) (why : Failure → String)
      → ((parsed : Json) → LeavesAll kinds (go parsed))
      → LeavesAll kinds (
          catching
            (settle (parse_json f.payload_str) >>= go)
            (λ e. update (set_json_error (some (why e)))))
  parsed-LeavesAll go why leaves κ b =
      Maintains-catching _ _
        (Maintains-bind _ _ (Maintains-settle _ (λ a e. tt)) (λ parsed v. leaves parsed κ b))
        (λ e. Maintains-update _ (λ s i. i))

  guarded-LeavesAll :
      (c : Bool) (e : Option String) (t : FormHandler)
      → LeavesAll kinds t
      → LeavesAll kinds (if c then update (set_json_error e) else t)
  guarded-LeavesAll true e t leaves κ b = Maintains-update _ (λ s i. i)
  guarded-LeavesAll false e t leaves κ b = leaves κ b

  send-LeavesAll :
      (num : ℕ) (time : String) → LeavesAll kinds (handle_send js parse_json f num time)
  unfolding handle_send
  send-LeavesAll num time κ b =
      Maintains-step _ _ (λ s i. i)
        (guarded-LeavesAll _ _ _
          (parsed-LeavesAll _ _ (λ parsed.
            published-LeavesAll _ _ _
              (λ κ b. Maintains-update _ (λ s i. renumber-Spares num s ∙ i))))
          κ b)

  batch_from-LeavesAll :
      (parsed : Json) (base : ℕ) (times : ℕ → String) (k i : ℕ)
      → LeavesAll kinds (batch_from js parse_json f parsed base times k i)
  unfolding batch_from
  batch_from-LeavesAll parsed base times zero i κ b = Maintains-done _ tt
  batch_from-LeavesAll parsed base times (suc k) i κ b =
      published-LeavesAll _ _ _ (batch_from-LeavesAll parsed base times k (suc i)) κ b

  batch-Acts :
      (s : Form) (count base : ℕ) (times : ℕ → String)
      → Acts kinds (some batching) s (handle_batch_publish js parse_json f count base times)
  unfolding handle_batch_publish
  batch-Acts s count base times =
      raised_then-Takes kinds batching s _ _ _ refl (λ κ s'. refl)
        (set_flag-Lowers kinds batching refl)
        (parsed-LeavesAll _ _ (λ parsed. batch_from-LeavesAll parsed base times count 1))

format-Spares :
    (parse_json : String → Result Json) (print_json : Json → String)
    → Spares kinds (format_payload_json parse_json print_json)
unfolding format_payload_json
format-Spares parse_json print_json κ s =
    elim (parse_json s.payload_str)
      as (λ r.
        Form.is_batch_publishing (elim r [
          | ok parsed ↦ record s { payload_str = print_json parsed; json_error = none }
          | err e ↦ set_json_error (some ("Invalid JSON: " +s message e)) s
        ])
        ≡ s.is_batch_publishing) [ ok parsed ↦ refl | err e ↦ refl ]

module _ (w : Given) where
  pub react-Acts : (e : PublishEvent) (n : ℕ) (s : Form) → Acts kinds (kind e) s (react w e n s)
  unfolding react regen_job_id regen_nats_msg_id reset_to_default_payload
  react-Acts (show_info topic) n s = λ κ b. Maintains-done _ tt
  react-Acts (set_nats_msg_id v) n s = λ κ b. Maintains-update _ (λ s' i. i)
  react-Acts (set_content_type v) n s = λ κ b. Maintains-update _ (λ s' i. i)
  react-Acts (set_source v) n s = λ κ b. Maintains-update _ (λ s' i. i)
  react-Acts (set_job_id v) n s = λ κ b. Maintains-update _ (λ s' i. i)
  react-Acts (set_job_type v) n s = λ κ b. Maintains-update _ (λ s' i. i)
  react-Acts (set_payload_str v) n s = λ κ b. Maintains-update _ (λ s' i. i)
  react-Acts (remove_header id) n s = λ κ b. Maintains-update _ (λ s' i. i)
  react-Acts (update_header id field v) n s = λ κ b. Maintains-update _ (λ s' i. i)
  react-Acts toggle_headers n s = λ κ b. Maintains-update _ (λ s' i. i)
  react-Acts add_header n s = λ κ b. Maintains-update _ (λ s' i. i)
  react-Acts regen_msg_id n s = λ κ b. Maintains-update _ (λ s' i. i)
  react-Acts regen_id n s = λ κ b. Maintains-update _ (λ s' i. i)
  react-Acts format_payload n s =
      λ κ b. Maintains-update _ (λ s' i. format-Spares w.parse_json w.print_json κ s' ∙ i)
  react-Acts reset_payload n s = λ κ b. Maintains-update _ (λ s' i. i)
  react-Acts send n s = send-LeavesAll w.js w.parse_json s _ _
  react-Acts (batch count) n s = batch-Acts w.js w.parse_json s s count _ _

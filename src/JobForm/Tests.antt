-- ===== src/JobForm/Tests.antt =====
-- The job form's theorem at a job that is being validated.
use nats_demo.Common.{◌↔◌, refl, none, true, false}
use nats_demo.Html.{Offers}
use nats_demo.Publisher.NextId.{numbered}
use nats_demo.JobForm.{JobForm}
use nats_demo.JobForm.View.{JobProps, view, show_info}
use nats_demo.JobForm.Busy.{OnlyInfo, view-OnlyInfo}

abbrev form : JobForm
form = record {
  job_id = numbered "job" 99;
  job_type = "image-processing";
  delivery_mode = "CORE";
  payload_str = "null";
  json_error = none;
}

abbrev validating : JobProps
validating = record { informs = true; is_submitting = false; is_validating = true }

view-OnlyInfo_example :
    Offers (view validating form) (show_info "submit-job")
    ↔ OnlyInfo validating (show_info "submit-job")
view-OnlyInfo_example = view-OnlyInfo validating form (show_info "submit-job") refl

-- ===== src/Tests/Jobs.antt =====
-- The dispatcher of internal/jobs, the scrub policies, the manifests of plugins and the notifications on small
-- concrete inputs.
use mathlib.Core.List.{Memᴰ}
use nova_nas.Base.{
  ◌≡◌, refl, ◌⊎◌, true, false, not, ◌&&◌, ◌||◌, none, some, [], ◌∷◌, codes, text_eq, text_beq, ◌=?◌,
  lookup, contains, ok, trim_space,
}
use nova_nas.Calendar.{Time, day_number}
use nova_nas.Jobs.Dispatcher.{DispatchInput, State, Backend, in_flight, dispatch}
use nova_nas.Jobs.Dispatcher.Outcomes.{
  dispatch-spec_dispatch, dispatch-no_orphan, spec_dispatch, is_ok, Reliable, has_job, has_task,
}
use nova_nas.ScrubPolicy.{
  Policy, World, Host, fire_policy, default_policy, default_policy_name, seven_days, nanos_of,
}
use nova_nas.ScrubPolicy.Rate.{fire_policy_once}
use nova_nas.Plugins.Needs.{need_dataset, is_known, need_tls_cert, need_oidc_client}
use nova_nas.Plugins.Validate.{
  PluginManifest, NeedBlocks, validate, is_complete, category_storage, category_developer,
  category_utility, head_errors, tag_errors, deployment_errors, need_errors, route_errors,
  dependency_errors, may_claim,
}
use nova_nas.Plugins.Grammar.{
  name_re, version_re, all_chars, last_char, span, after_digits, after_char, numbers_re, suffix_re,
  build_re,
}
use nova_nas.NotifyCenter.{
  Center, RecordInput, record_event, insert_notification, find_row, refused, is_source, is_severity,
  source_jobs, severity_info, severity_warning, row_of_input,
}
use nova_nas.NotifyCenter.Record.{record_event_twice}
use nova_nas.Plugins.Validate.Privilege.{validate-Privileged}

abbrev backend : Backend
backend = record {
  marshal = λ p. ok p;
  begin = none;
  insert_job = λ id input. none;
  encode_body = λ id b. none;
  enqueue = λ t. none;
  commit = λ id. none;
}

backend-Reliable : Reliable backend
backend-Reliable = record {
  marshals = λ p. (p, refl);
  begins = refl;
  inserts = λ id input. refl;
  encodes = λ id b. refl;
  enqueues = λ t. refl;
  commits = λ id. refl;
}

abbrev scrub_tank : DispatchInput
scrub_tank = record {
  kind = codes "pool.scrub";
  target = codes "tank";
  payload = [];
  command = codes "zpool scrub tank";
  request_id = [];
  unique_key = codes "pool:tank:scrub";
}

abbrev idle : State
idle = record { rows = []; queue = [] }

abbrev busy : State
busy = (dispatch backend idle (codes "1") scrub_tank).0

dispatch-spec_dispatch_example :
    (in_flight (dispatch backend busy (codes "2") scrub_tank).0.queue (codes "pool:tank:scrub")
      ≡ (spec_dispatch (in_flight busy.queue) (codes "pool:tank:scrub")).0
          (codes "pool:tank:scrub"))
    × (is_ok (dispatch backend busy (codes "2") scrub_tank).1
        ≡ (spec_dispatch (in_flight busy.queue) (codes "pool:tank:scrub")).1)
dispatch-spec_dispatch_example =
    dispatch-spec_dispatch backend busy (codes "2") (codes "pool:tank:scrub") scrub_tank
      backend-Reliable

dispatch-no_orphan_example :
    (has_job (dispatch backend idle (codes "1") scrub_tank).0 (codes "1")
      && not (has_task (dispatch backend idle (codes "1") scrub_tank).0.queue (codes "1")))
    ≡ false
unfolding lookup
dispatch-no_orphan_example = dispatch-no_orphan backend idle (codes "1") (codes "1") scrub_tank refl

abbrev host : Host
host = record {
  pool_names = ok (codes "tank" ∷ []);
  is_scrub_in_progress = λ pool. ok false;
  new_id = λ policy pool. pool;
  payload = λ pool. pool;
  list_enabled = none;
  get_by_name = none;
  create_fails = none;
  mark = λ name. none;
  error_text = λ e. [];
  min_fire_gap = seven_days;
}

abbrev sunday : Time
sunday = record { year = 2021; month = 1; day = 3; hour = 2; minute = 0; nanos = 0 }

abbrev monday : Time
monday = record sunday { day = 4 }

abbrev world : World
world = record { policies = (default_policy_name, default_policy backend host) ∷ []; jobs = idle }

fire_policy_once_example :
    ((fire_policy backend host world (default_policy backend host) sunday).jobs.rows ≡ [])
    ⊎ ((p' : Policy) × (lookup
            (fire_policy backend host world (default_policy backend host) sunday).policies
            default_policy_name
          ≡ some p')
        × (fire_policy backend host
              (fire_policy backend host world (default_policy backend host) sunday)
              p'
              monday
            ≡ fire_policy backend host world (default_policy backend host) sunday))
unfolding lookup text_beq nanos_of day_number
fire_policy_once_example =
    fire_policy_once backend host world (default_policy backend host) sunday monday refl refl refl

abbrev needs_data : NeedBlocks
needs_data = record {
  kind = need_dataset;
  dataset = some (codes "tank", codes "objects");
  oidc_client = none;
  tls_cert = none;
  permission = none;
}

abbrev rustfs : PluginManifest
rustfs = record {
  api_version = codes "novanas.io/v1";
  kind = codes "Plugin";
  name = codes "rustfs";
  version = codes "1.2.3";
  vendor = codes "nova";
  description = codes "objects";
  category = category_storage;
  display_category = [];
  tags = [];
  deployment = record { type = codes "systemd"; chart = []; unit = codes "rustfs.service" };
  needs = needs_data ∷ [];
  dependencies = [];
  routes = [];
  window = record { name = []; route = []; bundle = [] };
}

validate-Privileged_example :
    (is_complete needs_data ≡ true)
    × (is_known needs_data.kind ≡ true)
    × ((needs_data.kind =? need_dataset && not (rustfs.category =? category_storage)) ≡ false)
    × ((needs_data.kind =? need_tls_cert
          && (rustfs.category =? category_developer || rustfs.category =? category_utility))
        ≡ false)
    × ((needs_data.kind =? need_oidc_client && rustfs.category =? category_utility) ≡ false)
unfolding validate head_errors tag_errors deployment_errors need_errors route_errors
    dependency_errors may_claim is_complete name_re version_re all_chars last_char span after_digits
    after_char numbers_re suffix_re build_re text_beq contains trim_space
validate-Privileged_example =
    validate-Privileged (λ c. true) rustfs needs_data refl (Memᴰ.head refl)

abbrev quiet : Center
quiet = record { rows = []; states = []; bus = record { subscribers = []; next = 0 } }

abbrev job_failed : RecordInput
job_failed = record {
  source = source_jobs;
  source_id = codes "7";
  severity = severity_warning;
  title = codes "Job failed";
  body = [];
  link = [];
  tenant_id = [];
}

abbrev told : Center
told = (record_event none quiet (codes "a") 5 job_failed).0

abbrev told_again : RecordInput
told_again = record job_failed { severity = severity_info; title = codes "again" }

record_event_twice_example :
    ((record_event none told (codes "b") 6 told_again).0.rows ≡ told.rows)
    × (row_of_input (codes "a") 5 job_failed ≡ row_of_input (codes "a") 5 job_failed)
unfolding record_event insert_notification find_row refused is_source is_severity text_beq contains
    trim_space
record_event_twice_example =
    record_event_twice quiet (codes "a") (codes "b") 5 6 job_failed told_again
      (row_of_input (codes "a") 5 job_failed) (row_of_input (codes "a") 5 job_failed) told
      (record_event none told (codes "b") 6 told_again).0 refl refl refl refl

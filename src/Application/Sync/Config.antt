-- ===== src/Application/Sync/Config.antt =====
-- `_project_prometheus_datasource` and `_project_application_setting`.
use alert_hub.Prelude.{
  ℕ, true, ◌&&◌, ◌||◌, Option, none, some, List, Text, text_eq, nat_eq, ◌==◌, codes, take, nonempty,
  Result, ok, raise, ◌>>=◌, if◌then◌else◌,
}
use alert_hub.Prelude.Table.{row_of, save, remove}
use alert_hub.Prelude.Texts.{strip}
use alert_hub.Runtime.{Value, Runtime, get, flag, truthy, str_or_empty, py_str, is_null}
use alert_hub.Domain.Monitoring.{normalize_grafana_url, normalize_job_globs}
use alert_hub.Application.Rows.{ApplicationSetting, ClusterEvent, PrometheusDatasource}
use alert_hub.Application.Store.{Context, Store}
use alert_hub.Application.Sync.History.{
  blob_of, is_tombstone, latest_entity_event, optional_field, payload_datetime, payload_time,
}

abbrev pub datasource_of : Text → Store → Option PrometheusDatasource
datasource_of i s = row_of (λ (d : PrometheusDatasource). d.id) i s.datasources

abbrev pub delete_datasource : Text → Store → Store
delete_datasource i s = record s {
  datasources = remove (λ (d : PrometheusDatasource). d.id) i s.datasources;
}

-- The credentials: none, or what can be decoded; the outer `none` is what cannot.
abbrev pub credentials_of : Runtime → Value → Option (Option (List ℕ))
credentials_of rt v =
    if is_null v then some none else elim (blob_of rt v) [ none ↦ none | some b ↦ some (some b) ]

abbrev pub label_mode : Text → Text
label_mode mode =
    if mode == codes "canonical" || mode == codes "server" then mode else codes "canonical"

abbrev pub mode_of : Runtime → Value → Text
mode_of rt v = label_mode (if truthy v then py_str rt v else codes "canonical")

unfoldable pub datasource_row :
    Runtime
    → Text
    → ClusterEvent
    → Text
    → Text
    → Option (List ℕ)
    → Option PrometheusDatasource
    → Result PrometheusDatasource
unfolding payload_datetime py_str
datasource_row rt entity_id e name url credentials existing = do
  created_at ← payload_time rt (codes "created_at") e
  updated_at ← payload_time rt (codes "updated_at") e
  let kept : ℕ = elim existing [ none ↦ created_at | some d ↦ d.created_at ]
  ok (record {
    id = entity_id;
    name = take 255 name;
    url = take 2048 url;
    node_id = optional_field rt 128 (codes "node_id") e.payload;
    region = optional_field rt 128 (codes "region") e.payload;
    reachability_label_mode = mode_of rt (get (codes "reachability_label_mode") e.payload);
    enabled = flag (codes "enabled") true e.payload;
    encrypted_credentials = credentials;
    created_at = kept;
  })

abbrev pub save_datasource : PrometheusDatasource → Store → Store
save_datasource d s = record s {
  datasources = save (λ (x : PrometheusDatasource). x.id) d s.datasources;
}

abbrev pub project_live_datasource :
    Context → Text → ClusterEvent → Option (Option (List ℕ)) → Store → Result Store
project_live_datasource c entity_id e none s = ok s
project_live_datasource c entity_id e (some credentials) s =
    let name = strip (str_or_empty c.rt (get (codes "name") e.payload)) in
    let url = strip (str_or_empty c.rt (get (codes "url") e.payload)) in
    if nonempty name && nonempty url
    then (datasource_row c.rt entity_id e name url credentials (datasource_of entity_id s) >>= λ d.
        ok (save_datasource d s))
    else ok s

abbrev pub project_datasource_event : Context → Text → Option ClusterEvent → Store → Result Store
project_datasource_event c entity_id none s = ok s
project_datasource_event c entity_id (some e) s =
    if is_tombstone e
    then ok (delete_datasource entity_id s)
    else project_live_datasource c entity_id e
        (credentials_of c.rt (get (codes "encrypted_credentials") e.payload)) s

unfoldable pub project_prometheus_datasource : Context → Text → Store → Result Store
unfolding datasource_row latest_entity_event strip str_or_empty save remove
project_prometheus_datasource c entity_id s =
    project_datasource_event c entity_id
      (latest_entity_event (codes "prometheus_datasource") entity_id s) s

abbrev pub setting_of : Text → Store → Option ApplicationSetting
setting_of i s = row_of (λ (x : ApplicationSetting). x.id) i s.settings

-- The address, or none where it is refused.
abbrev pub url_or_none : Result (Option Text) → Option Text
url_or_none (raise e) = none
url_or_none (ok u) = u

unfoldable pub setting_row :
    Runtime
    → Text
    → ClusterEvent
    → Option Text
    → List Text
    → List Text
    → Option ApplicationSetting
    → Result ApplicationSetting
unfolding payload_datetime
setting_row rt entity_id e grafana_url key_job_globs alert_hub_job_globs existing = do
  created_at ← payload_time rt (codes "created_at") e
  updated_at ← payload_time rt (codes "updated_at") e
  let kept : ℕ = elim existing [ none ↦ created_at | some x ↦ x.created_at ]
  ok (record {
    id = entity_id;
    grafana_url = grafana_url;
    key_job_globs = key_job_globs;
    alert_hub_job_globs = alert_hub_job_globs;
    created_at = kept;
  })

abbrev pub save_setting : ApplicationSetting → Store → Store
save_setting x s = record s { settings = save (λ (y : ApplicationSetting). y.id) x s.settings }

-- Settings with a list of patterns that is refused are left out.
abbrev pub project_globs :
    Context → Text → ClusterEvent → Result (List Text) → Result (List Text) → Store → Result Store
project_globs c entity_id e (ok keys) (ok own) s =
    (let url =
        url_or_none (normalize_grafana_url c.rt true true (get (codes "grafana_url") e.payload)) in
      setting_row c.rt entity_id e url keys own (setting_of entity_id s) >>= λ x.
      ok (save_setting x s))
project_globs c entity_id e _ _ s = ok s

abbrev pub project_setting_event : Context → Text → Option ClusterEvent → Store → Result Store
project_setting_event c entity_id none s = ok s
project_setting_event c entity_id (some e) s =
    if is_tombstone e
    then ok s
    else project_globs c entity_id e
        (normalize_job_globs c.rt (get (codes "key_job_globs") e.payload))
        (normalize_job_globs c.rt (get (codes "alert_hub_job_globs") e.payload)) s

unfoldable pub project_application_setting : Context → Text → Store → Result Store
unfolding setting_row latest_entity_event normalize_grafana_url normalize_job_globs save
project_application_setting c entity_id s =
    project_setting_event c entity_id
      (latest_entity_event (codes "application_setting") entity_id s) s

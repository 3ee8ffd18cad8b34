-- ===== src/Tests/OfDaemon.antt =====
-- The daemon.
use ezcap.Base.Json.{Json}
use ezcap.Base.{true, false, ◌&&◌, List, [], ◌∷◌, none, refl, Text, codes}
use ezcap.Daemon.Capture.{starting, capturing, Reach, created, later, IsAudited, Reach-IsAudited}
use ezcap.Tests.Printer.{printing}
use ezcap.Daemon.Requests.{StatusView}
use ezcap.Daemon.Start.Outcome.{IsIdle, Ends, has_backend, start-Ends}
use ezcap.Daemon.Start.{StartAnswers, start}
use ezcap.Daemon.{Config, default_config, Daemon, new_daemon, on_capture_event}
use ezcap.Model.Event.{new_event}
use ezcap.Model.Protocol.{Request, hello, get_policy, set_policy, shutdown}
use ezcap.Policy.Types.{default_policy}
use ezcap.Tests.Documents.{Tree, object, array, items, fields, string, number, one_document}

abbrev answers : StartAnswers
answers = record {
  ebpf_starts = false;
  environment = none;
  default_interface = codes "eth0";
  pcap_starts = λ i. true;
  server_starts = true;
}

abbrev up : Daemon
up = (start answers (new_daemon default_config)).1

abbrev busy : Daemon
busy = on_capture_event true 5 new_event up

busy-Reach : Reach default_config busy
busy-Reach = later (later created (starting answers refl)) (capturing true 5 new_event refl)

Reach-IsAudited_example : IsAudited busy
Reach-IsAudited_example = Reach-IsAudited busy-Reach

new_daemon-IsIdle : IsIdle (new_daemon default_config)
unfolding new_daemon
new_daemon-IsIdle = record { not_running = refl; no_server = refl; no_backend = refl }

start-Ends_example :
    Ends
      (has_backend answers (new_daemon default_config).config && answers.server_starts)
      (start answers (new_daemon default_config))
start-Ends_example = start-Ends answers (new_daemon default_config) new_daemon-IsIdle

abbrev text : Text
text = codes "{...}"

abbrev patch : Tree
patch = object (
    fields (
      (codes "redaction", object (fields ((codes "mode", string (codes "domain-hash")) ∷ [])))
      ∷ []))

abbrev library : Json
library = printing text patch

abbrev view : StatusView
view = record {
  uptime_seconds = 1;
  backend_active = true;
  stored = 0;
  dropped = 0;
  schema_version = 1;
}

abbrev requests : List Request
requests =
    record { version = 1; operation = set_policy; request_id = codes "a"; params_json = text }
    ∷ record { version = 1; operation = shutdown; request_id = codes "b"; params_json = [] }
    ∷ record { version = 1; operation = get_policy; request_id = codes "c"; params_json = [] }
    ∷ record { version = 1; operation = hello; request_id = codes "d"; params_json = [] }
    ∷ []

-- A configuration file that changes a few settings.
abbrev config_doc : Tree
config_doc = object (
    fields (
      (codes "log_level", string (codes "warn"))
      ∷ (codes "interfaces", array (items (string (codes "eth0") ∷ [])))
      ∷ (
        codes "policy",
        object (
            fields (
              (
                codes "redaction",
                object (
                    fields (
                      (codes "sensitive_domains", array (items (string (codes "bank.com") ∷ [])))
                      ∷ [])),
              )
              ∷ [])),
      )
      ∷ (codes "status_interval_ms", number 500)
      ∷ []))

abbrev config_library : Json
config_library = one_document text config_doc (codes "{}")

abbrev configured : Config
configured = record default_config {
  log_level = codes "warn";
  interfaces = codes "eth0" ∷ [];
  policy = record default_policy { sensitive_domains = codes "bank.com" ∷ [] };
  status_interval = 500;
}

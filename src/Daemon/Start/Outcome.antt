-- ===== src/Daemon/Start/Outcome.antt =====
-- How a start ends.
use ezcap.Base.{
  Bool, true, false, ◌&&◌, ◌||◌, List, [], ◌∷◌, Option, none, some, is_some, ◌≡◌, refl, sym, ap,
  arith, if◌then◌else◌, Text, any,
}
use ezcap.Daemon.Start.{StartAnswers, candidates, first_pcap, choose_backend, serve, start}
use ezcap.Daemon.{Config, Backend, Daemon, stop}

-- Nothing runs.
pub record IsIdle (d : Daemon) : Type 0 where
  pub not_running : d.running ≡ false
  pub no_server : d.has_server ≡ false
  pub no_backend : d.backend ≡ none

first_pcap_some :
    (starts : Text → Bool) (is : List Text) → is_some (first_pcap starts is) ≡ any starts is
unfolding first_pcap
first_pcap_some starts [] = refl
first_pcap_some starts (i ∷ is) = ground (arith, first_pcap_some starts is)

-- A backend can be had: eBPF where it is preferred, or pcap on one of the candidates.
abbrev pub has_backend : StartAnswers → Config → Bool
has_backend a config =
    (config.prefer_ebpf && a.ebpf_starts)
    || (config.pcap_fallback
        && any a.pcap_starts (candidates a.environment config a.default_interface))

choose_backend_some :
    (a : StartAnswers) (config : Config) → is_some (choose_backend a config) ≡ has_backend a config
unfolding choose_backend
choose_backend_some a config =
    ground
      (arith, first_pcap_some a.pcap_starts (candidates a.environment config a.default_interface))

-- What a start leaves: everything runs, or nothing but a store that was opened.
abbrev pub Ends : Bool → Bool × Daemon → Type 0
Ends true (ok, d) =
    (ok ≡ true) × (d.running ≡ true) × (d.has_server ≡ true) × (is_some d.backend ≡ true)
Ends false (ok, d) = (ok ≡ false) × IsIdle d

stop-IsIdle : (d : Daemon) → d.has_server ≡ true → IsIdle (stop d)
unfolding stop
stop-IsIdle d on = record {
  not_running = ground arith;
  no_server = ground arith;
  no_backend = ground arith;
}

serve-Ends :
    (server_starts : Bool) (b : Option Backend) (d : Daemon)
    → IsIdle d
    → Ends (is_some b && server_starts) (serve server_starts b d)
unfolding serve
serve-Ends true none d v = (refl, v)
serve-Ends false none d v = (refl, v)
serve-Ends true (some b) d v = (refl, refl, refl, refl)
serve-Ends false (some b) d v =
    (refl, stop-IsIdle (record d { backend = some b; has_server = true }) refl)

start-serve :
    (a : StartAnswers) (d : Daemon)
    → d.running ≡ false
    → start a d
      ≡ serve a.server_starts
          (choose_backend a d.config)
          (record d { has_store = d.config.storage_enabled || d.has_store })
unfolding start
start-serve a d off =
    ap
      (λ b.
        if b
        then (true, d)
        else serve a.server_starts (choose_backend a d.config)
            (record d { has_store = d.config.storage_enabled || d.has_store }))
      off

-- A start of an idle daemon succeeds exactly if the server starts and a backend does: eBPF where
-- it is preferred, or, where the fallback is on, pcap on one of the candidate interfaces. The daemon
-- then runs with a server and a backend, and otherwise it is idle as before.
pub start-Ends :
    (a : StartAnswers) (d : Daemon)
    → IsIdle d
    → Ends (has_backend a d.config && a.server_starts) (start a d)
start-Ends a d v =
    let opened : Daemon = record d { has_store = d.config.storage_enabled || d.has_store } in
    let idle : IsIdle opened = record {
      not_running = v.not_running;
      no_server = v.no_server;
      no_backend = v.no_backend;
    } in
    rw (start-serve a d v.not_running, sym (choose_backend_some a d.config))
      (serve-Ends a.server_starts (choose_backend a d.config) opened idle)

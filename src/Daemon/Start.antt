-- ===== src/Daemon/Start.antt =====
-- Daemon::start: the choice of the backend and of the interface.
pub mod Outcome
use ezcap.Base.{
  ℕ, suc, ◌+◌, ◌-◌, Bool, true, false, not, ◌&&◌, ◌||◌, List, [], ◌∷◌, ◌++◌, Option, none, some,
  ltb, leb, ◌==◌, if◌then◌else◌, is_some, length, any, take, drop, Text, codes, text_eq, find_index,
  find_last, ◌≡◌, refl, sym, ap, ◌∙◌, arith, Bool-cases, Option-cases, inl, inr, ◌⊎◌,
}
use ezcap.Daemon.{Config, Backend, ebpf_backend, pcap_backend, Daemon, stop}
use ezcap.Policy.Redactor.{is_empty}

abbrev pub not_space : ℕ → Bool
not_space c = not (c == b' ' || (c == b'\t' || (c == b'\r' || c == b'\n')))

unfoldable pub trim : Text → Text
trim value = elim (find_index not_space value) [
  | none ↦ []
  | some begin ↦ elim (find_last not_space value) [
    | none ↦ []
    | some end ↦ take (end - begin + 1) (drop begin value)
  ]
]

unfoldable pub add_candidate : List Text → Text → List Text
add_candidate interfaces iface =
    if is_empty iface || any (text_eq iface) interfaces
    then interfaces
    else interfaces ++ iface ∷ []

-- IFNAMSIZ.
abbrev pub ifnamsiz : ℕ
ifnamsiz = 16

abbrev pub from_environment : Option Text → List Text
from_environment none = []
from_environment (some value) =
    if not (is_empty (trim value)) && ltb (length (trim value)) ifnamsiz
    then add_candidate [] (trim value)
    else []

abbrev pub from_config : List Text → List Text → List Text
from_config interfaces [] = interfaces
from_config interfaces (i ∷ _) = add_candidate interfaces i

-- The interfaces to try, in order: that of the environment, the first of the configuration, the
-- default one, and the pseudo-interface of all.
unfoldable pub candidates : Option Text → Config → Text → List Text
unfolding trim add_candidate
candidates environment config default =
    add_candidate
      (add_candidate (from_config (from_environment environment) config.interfaces) default)
      (codes "any")

-- What the parts answer to `start`.
pub record StartAnswers : Type 0 where
  pub ebpf_starts : Bool
  pub environment : Option Text
  pub default_interface : Text
  pub pcap_starts : Text → Bool
  pub server_starts : Bool

-- The first interface on which capturing starts.
unfoldable pub first_pcap : (Text → Bool) → List Text → Option Backend
first_pcap starts [] = none
first_pcap starts (i ∷ interfaces) =
    if starts i then some (pcap_backend i) else first_pcap starts interfaces

-- The backend, or `none` where `start` fails for the lack of one.
unfoldable pub choose_backend : StartAnswers → Config → Option Backend
unfolding candidates first_pcap
choose_backend a config =
    if config.prefer_ebpf && a.ebpf_starts
    then some ebpf_backend
    else if config.pcap_fallback
    then first_pcap a.pcap_starts (candidates a.environment config a.default_interface)
    else none

-- What follows the choice of a backend.
unfoldable pub serve : Bool → Option Backend → Daemon → Bool × Daemon
serve server_starts none d = (false, d)
serve server_starts (some backend) d =
    let serving : Daemon = record d { backend = some backend; has_server = true } in
    if server_starts then (true, record serving { running = true }) else (false, stop serving)

-- The store is there once it is made: `make_unique` never gives a null pointer.
unfoldable pub start : StartAnswers → Daemon → Bool × Daemon
unfolding choose_backend serve
start a d =
    if d.running
    then (true, d)
    else serve a.server_starts (choose_backend a d.config)
        (record d { has_store = d.config.storage_enabled || d.has_store })

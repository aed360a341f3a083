-- ===== src/Plugin/Manager.antt =====
-- `Manager` of internal/plugin/manager.go. A child process is named by a number, counted up from 0;
-- what the operating system and the plugin answer is the record `Machine`, and whether a process has
-- exited is asked of it at each call. Locks are left out: an operation runs as a whole.
pub mod Lifecycle
pub mod Healing
use claw_proxy_hub_next.Base.{
  ℕ, suc, ◌+◌, ◌==◌, String, str_eq, append, Bool, true, false, not, ◌&&◌, ◌||◌, Option, none, some,
  List, [], ◌∷◌, ◌++◌, map, if◌then◌else◌, GoMap, lookup, insert, delete, keys,
}
use claw_proxy_hub_next.Gateway.Envelope.{Error, StreamEvent, task_failed}

pub record Manifest : Type 0 where
  pub name : String
  pub version : String
  pub author : String
  pub protocol_version : ℕ
  pub endpoints : List String

-- `Instance`; the gRPC client goes with the process.
pub record Instance : Type 0 where
  pub name : String
  pub manifest : Manifest
  pub process : ℕ

-- What comes of starting a binary, up to the answer to the handshake.
pub data Launch : Type 0 where
  no_connection : Launch
  no_dispense : Launch
  wrong_type : Launch
  no_handshake : Launch
  answered : Option Error → Option Manifest → Launch

-- `model_list` is the answer of `ListModels`, none where the call fails.
pub record Machine : Type 0 where
  pub launch : (process : ℕ) → (bin : String) → Launch
  pub exited : ℕ → Bool
  pub is_file : String → Bool
  pub model_list : ℕ → Option (List String)

pub record Manager : Type 0 where
  pub plugins : GoMap Instance
  pub dir : String
  pub catalog : GoMap String
  pub launched : ℕ
  pub killed : List ℕ

-- `NewManager`
abbrev pub new_manager : String → Manager
new_manager dir = record { plugins = []; dir = dir; catalog = []; launched = 0; killed = [] }

-- The errors of `Start`.
pub data StartError : Type 0 where
  connect_plugin : StartError
  dispense_plugin : StartError
  unexpected_client : StartError
  handshake_error : StartError
  plugin_rejected : (message : String) → StartError
  version_mismatch : StartError

pub data Started : Type 0 where
  failed : StartError → Started
  running : Instance → Started

abbrev pub protocol_version : ℕ
protocol_version = 1

abbrev fail : ℕ → StartError → Manager → Manager × Started
fail process e m = (record m { killed = process ∷ m.killed }, failed e)

abbrev accept : ℕ → Option Manifest → Manager → Manager × Started
accept process none m = fail process version_mismatch m
accept process (some mf) m =
    let inst : Instance = record { name = mf.name; manifest = mf; process = process } in
    if mf.protocol_version == protocol_version
    then (record m { plugins = insert mf.name inst m.plugins }, running inst)
    else fail process version_mismatch m

unfoldable pub settle : ℕ → Launch → Manager → Manager × Started
settle process no_connection m = fail process connect_plugin m
settle process no_dispense m = fail process dispense_plugin m
settle process wrong_type m = fail process unexpected_client m
settle process no_handshake m = fail process handshake_error m
settle process (answered none mf) m = accept process mf m
settle process (answered (some e) mf) m =
    if e.code == 0 then accept process mf m else fail process (plugin_rejected e.message) m

-- `Start`
unfoldable pub start : Machine → String → Manager → Manager × Started
unfolding settle
start w bin m =
    let process = m.launched in
    settle process (w.launch process bin) (record m { launched = m.launched + 1 })

-- `pluginBinary` of the directory of a plugin: `platform` is the system and the architecture.
unfoldable pub plugin_binary : Machine → String → Bool → String → Option String
plugin_binary w platform windows dir =
    let bin = append dir (append "/plugin-" platform) in
    let exe = append bin ".exe" in
    if w.is_file bin then some bin else if windows && w.is_file exe then some exe else none

abbrev pub path : Manager → String → String
path m name = append m.dir (append "/" name)

module _ (w : Machine) (platform : String) (windows : Bool) where
  abbrev restarted : Manager × Started → Manager × Option Instance
  restarted (m, failed e) = (m, none)
  restarted (m, running inst) = (m, some inst)

  abbrev restart : Manager → Option String → Manager × Option Instance
  restart m none = (m, none)
  restart m (some bin) = restarted (start w bin m)

  abbrev found : String → Manager → Option Instance → Manager × Option Instance
  found name m none = (m, none)
  found name m (some inst) =
      let m' : Manager = record m { plugins = delete name m.plugins } in
      let again = restart m' (plugin_binary w platform windows (path m name)) in
      if w.exited inst.process then again else (m, some inst)

  -- `Get`: an instance whose process has crashed is started again.
  unfoldable pub get : String → Manager → Manager × Option Instance
  unfolding start plugin_binary
  get name m = found name m (lookup name m.plugins)

  -- `Scan`: the binaries of the directories that have one.
  unfoldable pub scan : Manager → List String → List String
  unfolding plugin_binary
  scan m [] = []
  scan m (name ∷ names) =
      let rest = scan m names in
      elim (plugin_binary w platform windows (path m name)) [ none ↦ rest | some bin ↦ bin ∷ rest ]

-- `Stop`
abbrev stop_found : String → Manager → Option Instance → Manager
stop_found name m none = m
stop_found name m (some inst) = record m {
  plugins = delete name m.plugins;
  killed = inst.process ∷ m.killed;
}

unfoldable pub stop : String → Manager → Manager
stop name m = stop_found name m (lookup name m.plugins)

-- `StopAll`
unfoldable pub stop_each : List String → Manager → Manager
unfolding stop
stop_each [] m = m
stop_each (name ∷ names) m = stop_each names (stop name m)

unfoldable pub stop_all : Manager → Manager
unfolding stop_each
stop_all m = stop_each (keys m.plugins) m

-- `Endpoints`
abbrev endpoints_of : Option Instance → List String
endpoints_of none = []
endpoints_of (some inst) = inst.manifest.endpoints

unfoldable pub endpoints : String → Manager → List String
endpoints name m = endpoints_of (lookup name m.plugins)

-- `RefreshCatalog`: of two plugins with a model, the later one in the order of the map has it.
unfoldable pub catalog_models : String → List String → GoMap String → GoMap String
catalog_models plugin [] catalog = catalog
catalog_models plugin (id ∷ ids) catalog = catalog_models plugin ids (insert id plugin catalog)

unfoldable pub catalog_of : Machine → GoMap Instance → GoMap String → GoMap String
unfolding catalog_models
catalog_of w [] catalog = catalog
catalog_of w ((name, inst) ∷ rest) catalog = elim (w.model_list inst.process) [
  | none ↦ catalog_of w rest catalog
  | some ids ↦ catalog_of w rest (catalog_models inst.name ids catalog)
]

unfoldable pub refresh_catalog : Machine → Manager → Manager
unfolding catalog_of
refresh_catalog w m = record m { catalog = catalog_of w m.plugins [] }

-- `ResolveModel`
abbrev pub resolve_model : String → Manager → Option String
resolve_model model m = lookup model m.catalog

-- What `stream.Recv` returns.
pub data Received : Type 0 where
  event : StreamEvent → Received
  eof : Received
  broken : (message : String) → Received

-- The goroutine of `Chat`: the events that it sends, and whether it has closed the channel.
unfoldable pub pump : List Received → List StreamEvent × Bool
pump [] = ([], false)
pump (event ev ∷ rest) = let (evs, closed) = pump rest in (ev ∷ evs, closed)
pump (eof ∷ rest) = ([], true)
pump (broken message ∷ rest) =
    let e : Error = record { code = 1; message = message; retryable = false } in
    (task_failed (some e) "" ∷ [], true)

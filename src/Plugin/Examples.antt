-- ===== src/Plugin/Examples.antt =====
-- The processes, the storage and the output of plugins at work.
use claw_proxy_hub_next.Base.{
  ◌==◌, String, str_eq, true, false, none, some, List, [], ◌∷◌, lookup, insert, GoMap, ◌≡◌, refl,
  arith,
}
use claw_proxy_hub_next.Plugin.Stderr.{Bytes, drain, write_all}
use claw_proxy_hub_next.Plugin.Stderr.Lines.{concat, write_all-drain}
use claw_proxy_hub_next.Plugin.Manager.{
  Manifest, Instance, answered, Machine, Manager, new_manager, start, get, plugin_binary, settle,
}
use claw_proxy_hub_next.Plugin.Manager.Lifecycle.{
  IsSound, Reachable, fresh, next, started, gotten, Reachable-IsSound,
}
use claw_proxy_hub_next.Plugin.Manager.Healing.{get_heals}
use claw_proxy_hub_next.Plugin.Host.{
  Stores, value_at, new_host_service, set_plugin_name, store_get, Value, text, other,
}
use claw_proxy_hub_next.Plugin.Host.Storage.{Call, get_call, put_call, run, store_get-run}

-- Two lines in three writes.
abbrev writes : List Bytes
writes = (104 ∷ 105 ∷ []) ∷ (13 ∷ 10 ∷ 111 ∷ []) ∷ (107 ∷ 10 ∷ 46 ∷ []) ∷ []

write_all-drain_example : write_all [] writes ≡ drain [] (concat writes)
unfolding drain
write_all-drain_example = write_all-drain writes (omega arith, (omega arith, (omega arith, tt)))

abbrev manifest : Manifest
manifest = record {
  name = "qwen";
  version = "1.0";
  author = "a";
  protocol_version = 1;
  endpoints = [];
}

-- The first process has crashed; each further start comes up.
abbrev machine : Machine
machine = record {
  launch = λ process bin. answered none (some manifest);
  exited = λ process. process == 0;
  is_file = λ name. true;
  model_list = λ process. none;
}

abbrev once : Manager
once = (start machine "plugins/qwen/plugin-linux" (new_manager "plugins")).0

once_more : Reachable "plugins" (get machine "linux" false "qwen" once).0
once_more =
    next (next fresh (started machine "plugins/qwen/plugin-linux"))
      (gotten machine "linux" false "qwen")

Reachable-IsSound_example : IsSound (get machine "linux" false "qwen" once).0
Reachable-IsSound_example = Reachable-IsSound once_more

abbrev crashed : Instance
crashed = record { name = "qwen"; manifest = manifest; process = 0 }

abbrev revival : Instance
revival = record { name = "qwen"; manifest = manifest; process = 1 }

get_heals_example :
    ((get machine "linux" false "qwen" once).1 ≡ some revival)
    × (get machine "linux" false "qwen" (get machine "linux" false "qwen" once).0
        ≡ ((get machine "linux" false "qwen" once).0, some revival))
unfolding start settle plugin_binary lookup insert
get_heals_example =
    get_heals machine "linux" false "qwen" "plugins/qwen/plugin-linux" once crashed manifest refl
      refl refl refl refl refl refl

abbrev table : Stores
table = ("other", ("k", "theirs") ∷ []) ∷ []

abbrev calls : List Call
calls = get_call "k" ∷ put_call true "k" "mine" ∷ put_call false "k" "lost" ∷ []

store_get-run_example :
    ((store_get
        (run (set_plugin_name "qwen" new_host_service) table calls).0
        (run (set_plugin_name "qwen" new_host_service) table calls).1
        "k").1
      ≡ value_at "qwen" "k" (run (set_plugin_name "qwen" new_host_service) table calls).1)
    × ((q : String)
        → str_eq "qwen" q ≡ false
        → lookup q (run (set_plugin_name "qwen" new_host_service) table calls).1 ≡ lookup q table)
store_get-run_example = store_get-run "qwen" "k" table calls

abbrev identity : GoMap String
identity = ("user_agent", "claw/1") ∷ ("client_name", "") ∷ []

abbrev own : GoMap Value
own = ("user_agent", text " ") ∷ ("depth", other "3") ∷ []

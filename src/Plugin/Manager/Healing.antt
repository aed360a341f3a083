-- ===== src/Plugin/Manager/Healing.antt =====
-- A crashed plugin comes back, and is not started twice.
use claw_proxy_hub_next.Base.{
  ◌+◌, String, Bool, true, false, none, some, lookup, insert, delete, lookup-insert, eq_refl, ◌≡◌,
  refl, ◌∙◌,
}
use claw_proxy_hub_next.Plugin.Manager.{
  Manifest, Instance, answered, Machine, Manager, protocol_version, start, settle, plugin_binary,
  path, get,
}

module _ (w : Machine) (platform : String) (windows : Bool) where
  -- An instance whose process runs is handed out as it is.
  get-running :
      (name : String) (m : Manager) (inst : Instance)
      → lookup name m.plugins ≡ some inst
      → w.exited inst.process ≡ false
      → get w platform windows name m ≡ (m, some inst)
  unfolding get
  get-running name m inst there runs = rw (there, runs) refl

  -- The state after a restart.
  abbrev pub revived : Manager → String → Instance → Manager
  revived m name inst = record m {
    plugins = insert name inst (delete name m.plugins);
    launched = m.launched + 1;
  }

  get-crashed :
      (name bin : String) (m : Manager) (inst : Instance) (mf : Manifest)
      → lookup name m.plugins ≡ some inst
      → w.exited inst.process ≡ true
      → plugin_binary w platform windows (path m name) ≡ some bin
      → w.launch m.launched bin ≡ answered none (some mf)
      → mf.protocol_version ≡ protocol_version
      → mf.name ≡ name
      → let new : Instance = record { name = mf.name; manifest = mf; process = m.launched } in
        get w platform windows name m ≡ (revived m name new, some new)
  unfolding get start settle
  get-crashed name bin m inst mf there crashed on_disk comes_up fits same =
      rw (there, crashed, on_disk, comes_up, fits, same) refl

  -- A plugin whose process has crashed is running again after the next Get, under its name and with
  -- the new process, if its binary is still there and the handshake succeeds under the same name; and
  -- as long as the new process runs, another Get starts nothing and returns the same instance.
  pub get_heals :
      (name bin : String) (m : Manager) (inst : Instance) (mf : Manifest)
      → lookup name m.plugins ≡ some inst
      → w.exited inst.process ≡ true
      → plugin_binary w platform windows (path m name) ≡ some bin
      → w.launch m.launched bin ≡ answered none (some mf)
      → mf.protocol_version ≡ protocol_version
      → mf.name ≡ name
      → w.exited m.launched ≡ false
      → let new : Instance = record { name = mf.name; manifest = mf; process = m.launched } in
        let (m', got) = get w platform windows name m in
        (got ≡ some new) × (get w platform windows name m' ≡ (m', some new))
  get_heals name bin m inst mf there crashed on_disk comes_up fits same runs =
      let new : Instance = record { name = mf.name; manifest = mf; process = m.launched } in
      let m' = revived m name new in
      let back : lookup name m'.plugins ≡ some new =
        lookup-insert name name new (delete name m.plugins) ∙ rw (eq_refl name) refl in
      rw (get-crashed name bin m inst mf there crashed on_disk comes_up fits same)
        (refl, get-running name m' new back runs)

-- ===== src/Plugin/Packages.antt =====
-- internal/plugin/install.go: packages and the directories of installed plugins. A file of a package is
-- its base name and its content; what the zip library and JSON make of them are given. Every file of
-- a package can be opened and written; removing a directory may fail, and is tried three times.
use claw_proxy_hub_next.Base.{
  ℕ, zero, suc, ◌==◌, String, str_eq, append, Bool, true, false, not, ◌&&◌, ◌||◌, Option, none,
  some, List, [], ◌∷◌, if◌then◌else◌, GoMap, insert, delete, contains, find,
}
use claw_proxy_hub_next.Plugin.Manager.{
  Machine, Manager, StartError, Started, running, failed, protocol_version, start, get, stop, path,
}

pub record PackageManifest : Type 0 where
  pub name : String
  pub protocol_version : ℕ
  pub icon : String

pub record PackageFile : Type 0 where
  pub base : String
  pub content : String

pub data InstallError : Type 0 where
  open_package : InstallError
  invalid_manifest : InstallError
  missing_manifest : InstallError
  missing_name : InstallError
  missing_binary : InstallError
  package_version : InstallError
  clean_old_install : InstallError
  failed_to_start : StartError → InstallError

-- The manifest and the binary that the loop over the files has found.
pub record Contents : Type 0 where
  pub manifest : Option PackageManifest
  pub binary : Option String

-- The directories under the manager's: the files of each plugin.
abbrev pub Disk : Type 0
Disk = GoMap (GoMap String)

pub data Checked : Type 0 where
  refused : InstallError → Checked
  accepted : PackageManifest → (binary : String) → Checked

module _ (decode : String → Option PackageManifest) (platform : String) (windows : Bool) where
  abbrev platform_bin : String
  platform_bin = append "plugin-" platform

  abbrev with_manifest : Contents → Option PackageManifest → Option Contents
  with_manifest c none = none
  with_manifest c (some mf) = some (record c { manifest = some mf })

  -- The cases of the `switch`; none is an invalid manifest.
  unfoldable pub take_file : Contents → PackageFile → Option Contents
  take_file c f =
      let is_binary =
        str_eq f.base platform_bin || (windows && str_eq f.base (append platform_bin ".exe")) in
      if str_eq f.base "manifest.json"
      then with_manifest c (decode f.content)
      else if is_binary
      then some (record c { binary = some f.content })
      else some c

  unfoldable pub take_files : Option Contents → List PackageFile → Option Contents
  unfolding take_file
  take_files none fs = none
  take_files (some c) [] = some c
  take_files (some c) (f ∷ fs) = take_files (take_file c f) fs

  abbrev check_version : PackageManifest → String → Checked
  check_version mf bin =
      if not (mf.protocol_version == 0) && not (mf.protocol_version == protocol_version)
      then refused package_version
      else accepted mf bin

  abbrev check_binary : PackageManifest → Option String → Checked
  check_binary mf none = refused missing_binary
  check_binary mf (some bin) = check_version mf bin

  abbrev check_contents : Contents → Option PackageManifest → Checked
  check_contents c none = refused missing_manifest
  check_contents c (some mf) =
      if str_eq mf.name "" then refused missing_name else check_binary mf c.binary

  abbrev check_read : Option Contents → Checked
  check_read none = refused invalid_manifest
  check_read (some c) = check_contents c c.manifest

  -- The checks of `InstallZip`, before anything is changed.
  unfoldable pub check_package : Option (List PackageFile) → Checked
  unfolding take_files
  check_package none = refused open_package
  check_package (some fs) =
      check_read (take_files (some (record { manifest = none; binary = none })) fs)

-- `zipEntry`
abbrev zip_entry : String → List PackageFile → Option PackageFile
zip_entry base = find (λ f. str_eq f.base base)

abbrev put_entry : Option PackageFile → GoMap String → GoMap String
put_entry none dir = dir
put_entry (some f) dir = insert f.base f.content dir

-- `removeWithRetry`: three attempts.
unfoldable pub remove_with_retry : ℕ → (ℕ → Bool) → Bool
remove_with_retry zero removes = false
remove_with_retry (suc n) removes = let later = remove_with_retry n removes in removes n || later

-- The files of a new installation; `base_of` is `filepath.Base`.
unfoldable pub unpack :
    (String → String) → String → PackageManifest → String → List PackageFile → GoMap String
unpack base_of bin_name mf bin fs =
    let dir = put_entry (zip_entry "manifest.json" fs) (insert bin_name bin []) in
    let icon = put_entry (zip_entry (base_of mf.icon) fs) dir in
    if str_eq mf.icon "" then dir else icon

pub data Installed : Type 0 where
  not_installed : InstallError → Installed
  installed : (name : String) → Installed

-- The plugin is stopped if `Get` finds it, which may start a crashed one again.
abbrev stop_running {ℓ} : {A : Type ℓ} → String → Manager × Option A → Manager
stop_running name (m, none) = m
stop_running name (m, some inst) = stop name m

abbrev outcome : String → Disk → Manager × Started → Manager × Disk × Installed
outcome name disk (m, failed e) = (m, disk, not_installed (failed_to_start e))
outcome name disk (m, running inst) = (m, disk, installed name)

module _ (w : Machine) (platform : String) (windows : Bool) (base_of : String → String)
    (removes : ℕ → Bool) where
  abbrev proceed : List PackageFile → Checked → Manager → Disk → Manager × Disk × Installed
  proceed fs (refused e) m disk = (m, disk, not_installed e)
  proceed fs (accepted mf bin) m disk =
      let m' = stop_running mf.name (get w platform windows mf.name m) in
      let plain = append "plugin-" platform in
      let bin_name = if windows then append plain ".exe" else plain in
      let disk' = insert mf.name (unpack base_of bin_name mf bin fs) disk in
      let started = start w (append (path m' mf.name) (append "/" bin_name)) m' in
      if remove_with_retry 3 removes
      then outcome mf.name disk' started
      else (m', disk, not_installed clean_old_install)

  abbrev files_of : Option (List PackageFile) → List PackageFile
  files_of none = []
  files_of (some fs) = fs

  -- `InstallZip`
  unfoldable pub install_zip :
      (String → Option PackageManifest)
      → Option (List PackageFile)
      → Manager
      → Disk
      → Manager × Disk × Installed
  unfolding check_package get stop start remove_with_retry unpack
  install_zip decode zip m disk =
      proceed (files_of zip) (check_package decode platform windows zip) m disk

  -- `validPluginName`
  unfoldable pub valid_plugin_name : String → Bool
  valid_plugin_name name =
      not (str_eq name "" || contains name "/" || contains name "\\" || contains name ".")

  -- `Uninstall`: whether it went well.
  unfoldable pub uninstall : String → Manager → Disk → (Manager × Disk) × Bool
  unfolding valid_plugin_name get stop
  uninstall name m disk =
      let m' = stop_running name (get w platform windows name m) in
      if not (valid_plugin_name name)
      then ((m, disk), false)
      else if removes 0
      then ((m', delete name disk), true)
      else ((m', disk), false)

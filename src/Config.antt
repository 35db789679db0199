-- ===== src/Config.antt =====
-- src/05_ftp/include/ConfigManager.h: the configuration, a map of sections. The tree that
-- `read_ini` returns is an argument, and so is the file system.
pub mod Loading
use boost_asio.Common.{
  Bool, true, false, Option, none, some, ◌>>=◌, List, [], ◌∷◌, ◌++◌, Bytes, if◌then◌else◌,
}
use boost_asio.Map.{find, assign, bytes_eq}
use boost_asio.Logic.{text}

-- SectionInfo
pub record SectionInfo : Type 0 where
  pub datas : List (Bytes × Bytes)

unfoldable pub new_section : SectionInfo
new_section = record { datas = [] }

unfoldable pub or_empty : Option Bytes → Bytes
or_empty none = []
or_empty (some s) = s

-- SectionInfo::GetValue, and its operator[]
unfoldable pub section_value : Bytes → SectionInfo → Bytes
unfolding or_empty
section_value key info = or_empty (find key info.datas)

-- SectionInfo::SetValue
unfoldable pub set_value : Bytes → Bytes → SectionInfo → SectionInfo
set_value key value info = record { datas = assign key value info.datas }

pub record ConfigManager : Type 0 where
  pub config_map : List (Bytes × SectionInfo)
  pub static_path : Bytes
  pub bin_path : Bytes

-- The operator[] of `_configMap` puts an empty section where there is none.
unfoldable pub section_of : Bytes → ConfigManager → SectionInfo × ConfigManager
unfolding new_section
section_of name c = elim (find name c.config_map) [
  | some info ↦ (info, c)
  | none ↦ (new_section, record c { config_map = assign name new_section c.config_map })
]

-- ConfigManager::GetValue; the section is there when operator[] is called.
unfoldable pub get_value : Bytes → Bytes → ConfigManager → Bytes
unfolding section_value
get_value name key c = elim (find name c.config_map) [
  | none ↦ []
  | some info ↦ section_value key info
]

-- The inner loop of the constructor
unfoldable pub load_section : List (Bytes × Bytes) → SectionInfo → SectionInfo
unfolding set_value
load_section [] info = info
load_section ((key, value) ∷ rest) info = load_section rest (set_value key value info)

-- The outer loop
unfoldable pub load :
    List (Bytes × List (Bytes × Bytes)) → List (Bytes × SectionInfo) → List (Bytes × SectionInfo)
unfolding load_section new_section
load [] m = m
load ((name, section) ∷ rest) m = load rest (assign name (load_section section new_section) m)

-- PrintConfig, without what it prints around it
unfoldable pub print_section : List (Bytes × Bytes) → Bytes
print_section [] = []
print_section ((key, value) ∷ rest) = key ++ text " = " ++ value ++ text "\n" ++ print_section rest

unfoldable pub print_config : List (Bytes × SectionInfo) → Bytes
unfolding print_section
print_config [] = []
print_config ((name, info) ∷ rest) =
    text "[" ++ name ++ text "]\n" ++ print_section info.datas ++ print_config rest

-- What is used of std::filesystem, on a state of type `Files`; `create_directory` throws where
-- there is no parent directory.
pub record Directories (Files : Type 0) : Type 0 where
  pub join : Bytes → Bytes → Bytes
  pub exists : Bytes → Files → Bool
  pub create_directory : Bytes → Files → Option Files

module _ {Files : Type 0} (d : Directories Files) where
  open d use {join, exists, create_directory}

  unfoldable pub ensure : Bytes → Files → Option Files
  ensure path f = if exists path f then some f else create_directory path f

  -- ConfigManager::InitPath
  unfoldable pub init_path : Bytes → ConfigManager → Files → Option (ConfigManager × Files)
  unfolding ensure section_of section_value
  init_path current_path c f =
      let (output, c') = section_of (text "Output") c in
      let bin_dir = section_value (text "Path") output in
      let (static, c'') = section_of (text "Static") c' in
      let static_dir = section_value (text "Path") static in
      let bin_path = join current_path bin_dir in
      let static_path = join (join current_path bin_dir) static_dir in
      do
        with_bin ← ensure bin_path f
        with_static ← ensure static_path with_bin
        some (record c'' { bin_path = bin_path; static_path = static_path }, with_static)

  -- The constructor, on the tree of the file config.ini
  unfoldable pub new_config :
      List (Bytes × List (Bytes × Bytes)) → Bytes → Files → Option (ConfigManager × Files)
  unfolding load init_path
  new_config tree current_path f =
      init_path current_path (record { config_map = load tree []; static_path = []; bin_path = [] })
        f

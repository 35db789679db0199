-- ===== src/Config/Loading.antt =====
-- The values that the constructor of src/05_ftp/include/ConfigManager.h leaves, and its directories.
use boost_asio.Common.{
  true, ◌≡◌, refl, sym, ap, ◌∙◌, Option, none, some, List, [], ◌∷◌, Bytes, if◌then◌else◌,
  bind-eq-some, arith,
}
use boost_asio.Map.{find, assign, find-assign, bytes_eq, bytes_beq, bytes_beq_iff}
use boost_asio.Logic.{text}
use boost_asio.Config.{
  SectionInfo, new_section, section_value, set_value, or_empty, ConfigManager, section_of,
  get_value, load_section, load, Directories, ensure, init_path, new_config,
}

-- the value of the last occurrence of a key, or else `d`
unfoldable pub last_of {ℓ} : {V : Type ℓ} → Bytes → V → List (Bytes × V) → V
last_of k d [] = d
last_of k d ((j, v) ∷ rest) = last_of k (if bytes_beq j k then v else d) rest

-- the value that a file configures
unfoldable pub configured : Bytes → Bytes → List (Bytes × List (Bytes × Bytes)) → Bytes
configured name key tree = last_of key [] (last_of name [] tree)

value_in : Bytes → Bytes → List (Bytes × SectionInfo) → Bytes
value_in name key m =
    get_value name key (record { config_map = m; static_path = []; bin_path = [] })

load_section-last_of :
    (key : Bytes) (s : List (Bytes × Bytes)) (info : SectionInfo)
    → section_value key (load_section s info) ≡ last_of key (section_value key info) s
unfolding load_section last_of section_value set_value or_empty
load_section-last_of key [] info = refl
load_section-last_of key ((k, v) ∷ s) info =
    load_section-last_of key s (set_value k v info)
    ∙ ap (λ d. last_of key d s) (ground (arith, find-assign k key v info.datas))

new_section_empty : (key : Bytes) → section_value key new_section ≡ []
unfolding section_value new_section or_empty find
new_section_empty key = refl

load-last_of :
    (name key : Bytes) (tree : List (Bytes × List (Bytes × Bytes))) (m : List (Bytes × SectionInfo))
    (d : List (Bytes × Bytes))
    → value_in name key m ≡ last_of key [] d
    → value_in name key (load tree m) ≡ last_of key [] (last_of name d tree)
unfolding load last_of value_in get_value
load-last_of name key [] m d h = h
load-last_of name key ((n, s) ∷ tree) m d h =
    load-last_of name key tree (assign n (load_section s new_section) m) _ (
      ground (
        arith,
        find-assign n name (load_section s new_section) m,
        load_section-last_of key s new_section,
        new_section_empty key,
        h,
      ))

section_of-value :
    (n name key : Bytes) (c : ConfigManager)
    → get_value name key (section_of n c).1 ≡ get_value name key c
unfolding section_of get_value new_section section_value or_empty
section_of-value n name key c = ground (
  arith,
  find-assign n name new_section c.config_map,
  new_section_empty key,
  bytes_beq_iff n name,
)

module _ {Files : Type 0} (d : Directories Files) where
  open d use {join, exists, create_directory}

  -- When the constructor returns, the value of every key in every section is the one that the
  -- file configures last, and empty where it configures none.
  pub new_config-configured :
      (tree : List (Bytes × List (Bytes × Bytes))) (current_path : Bytes) (f : Files)
      (c : ConfigManager) (f' : Files) (name key : Bytes)
      → new_config d tree current_path f ≡ some (c, f')
      → get_value name key c ≡ configured name key tree
  unfolding new_config configured init_path last_of value_in get_value find
  new_config-configured tree current_path f c f' name key h =
      let start : ConfigManager = record {
        config_map = load tree [];
        static_path = [];
        bin_path = [];
      } in
      let (g, _, h') = bind-eq-some (ensure d _ f) _ h in
      let (g', _, h'') = bind-eq-some (ensure d _ g) _ h' in
      sym (ap value_of h'')
      ∙ section_of-value (text "Static") name key (section_of (text "Output") start).1
      ∙ section_of-value (text "Output") name key start
      ∙ load-last_of name key tree [] [] refl
    where
      value_of : Option (ConfigManager × Files) → Bytes
      value_of none = []
      value_of (some (r, _)) = get_value name key r

  ensure-exists :
      (p : Bytes) (f f' : Files)
      → ((p : Bytes) (g g' : Files) → create_directory p g ≡ some g' → exists p g' ≡ true)
      → ensure d p f ≡ some f'
      → exists p f' ≡ true
  unfolding ensure
  ensure-exists p f f' created h = ground (arith, created p f f')

  ensure-keeps :
      (p q : Bytes) (f f' : Files)
      → ((p q : Bytes) (g g' : Files)
          → create_directory p g ≡ some g'
          → exists q g ≡ true
          → exists q g' ≡ true)
      → ensure d p f ≡ some f'
      → exists q f ≡ true
      → exists q f' ≡ true
  unfolding ensure
  ensure-keeps p q f f' kept h there = ground (arith, kept p q f f')

  -- If a directory exists once it has been created, and creating one removes none, then the
  -- directories of the binary and of the static files exist when InitPath returns.
  pub init_path-exists :
      (current_path : Bytes) (c : ConfigManager) (f : Files) (c' : ConfigManager) (f' : Files)
      → ((p : Bytes) (g g' : Files) → create_directory p g ≡ some g' → exists p g' ≡ true)
      → ((p q : Bytes) (g g' : Files)
          → create_directory p g ≡ some g'
          → exists q g ≡ true
          → exists q g' ≡ true)
      → init_path d current_path c f ≡ some (c', f')
      → (exists c'.bin_path f' ≡ true) × (exists c'.static_path f' ≡ true)
  unfolding init_path ensure
  init_path-exists current_path c f c' f' created kept h =
      let (g, e, h') = bind-eq-some (ensure d _ f) _ h in
      let (g', e', h'') = bind-eq-some (ensure d _ g) _ h' in
      ground (
        arith,
        ensure-exists _ f g created e,
        ensure-exists _ g g' created e',
        ensure-keeps _ _ g g' kept e' (ensure-exists _ f g created e),
        h'',
      )

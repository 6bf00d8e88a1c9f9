-- ===== src/Config/Layers/File.antt =====
-- The layer of the configuration file.
use stricklysoft_core.Prelude.{
  false, String, Option, none, some, ◌≡◌, ◌≢◌, ◌⊎◌, ◌↔◌, inl, inr, refl, sym, subst, ap, arith,
  eq_iff, ◌==◌, if◌then◌else◌, Bool-cases, to_lower, quote,
}
use Prim.Native.String.{◌++◌}
use stricklysoft_core.Prelude.{contains as has_text}
use stricklysoft_core.Errors.{GoError, wrap}
use stricklysoft_core.Config.{Struct}
use stricklysoft_core.Config.Sources.{
  Host, FileContents, contents, missing, unreadable, reported, decoded, file_ext, file_values,
  load_file,
}

-- What the layer of the file makes of a struct: nothing without a path or without a file, else what
-- the decoder for the extension makes of it.
pub data FileLayer (host : Host) (path : String) (d : Struct) : Struct → Type 0 where
  no_path : path ≡ "" → FileLayer host path d d
  no_file :
      path ≢ ""
      → has_text ".." path ≡ false
      → host.read_file path ≡ missing
      → FileLayer host path d d
  from_yaml :
      {f : Struct} {bytes : String}
      → path ≢ ""
      → has_text ".." path ≡ false
      → host.read_file path ≡ contents bytes
      → (to_lower (file_ext path) ≡ ".yaml") ⊎ (to_lower (file_ext path) ≡ ".yml")
      → host.yaml_unmarshal bytes d ≡ (f, none)
      → FileLayer host path d f
  from_json :
      {f : Struct} {bytes : String}
      → path ≢ ""
      → has_text ".." path ≡ false
      → host.read_file path ≡ contents bytes
      → to_lower (file_ext path) ≡ ".json"
      → host.json_unmarshal bytes d ≡ (f, none)
      → FileLayer host path d f

abbrev pub file_step : Host → String → Struct → Struct × Option GoError
file_step host path d = if path == "" then (d, none) else load_file host path d

reported_iff :
    (message : String) (x : Struct × Option GoError) (f : Struct)
    → (reported message x ≡ (f, none)) ↔ (x ≡ (f, none))
unfolding wrap
reported_iff message (v, none) f = (λ h. h, λ h. h)
reported_iff message (v, some e) f = (λ h. ground arith, λ h. ground arith)

module _ (host : Host) (path : String) (d f : Struct) where
  module _ (given : path ≢ "") (clean : has_text ".." path ≡ false) where
    decoded_layer :
        (bytes : String)
        → host.read_file path ≡ contents bytes
        → decoded host path (to_lower (file_ext path)) bytes d ≡ (f, none)
        → FileLayer host path d f
    decoded_layer bytes r h = elim (Bool-cases (ext == ".yaml")) [
      | inl y ↦ yaml (inl ((eq_iff ext ".yaml").0 y)) (ground arith)
      | inr y ↦ elim (Bool-cases (ext == ".yml")) [
        | inl y' ↦ yaml (inr ((eq_iff ext ".yml").0 y')) (ground arith)
        | inr y' ↦ elim (Bool-cases (ext == ".json")) [
          | inl js ↦ from_json given clean r ((eq_iff ext ".json").0 js) (
              (reported_iff ("config: failed to parse JSON file " ++ quote path)
                  (host.json_unmarshal bytes d) f).0
                (ground arith))
          | inr js ↦ absurd (ground arith)
        ]
      ]
    ]
      where
        ext : String
        ext = to_lower (file_ext path)

        message : String
        message = "config: failed to parse YAML file " ++ quote path

        yaml :
            (ext ≡ ".yaml") ⊎ (ext ≡ ".yml")
            → reported message (host.yaml_unmarshal bytes d) ≡ (f, none)
            → FileLayer host path d f
        yaml e k =
            from_yaml given clean r e ((reported_iff message (host.yaml_unmarshal bytes d) f).0 k)

    values_layer :
        (c : FileContents)
        → host.read_file path ≡ c
        → file_values host path c d ≡ (f, none)
        → FileLayer host path d f
    unfolding wrap
    values_layer missing r h =
        subst (FileLayer host path d) (ap (λ x. x.0) h) (no_file given clean r)
    values_layer (unreadable e) r h = absurd (ground arith)
    values_layer (contents bytes) r h = decoded_layer bytes r h

  pub FileLayer-sound : file_step host path d ≡ (f, none) → FileLayer host path d f
  unfolding load_file
  FileLayer-sound h = elim (Bool-cases (path == "")) [
    | inl e ↦ subst (FileLayer host path d) (ground arith) (no_path ((eq_iff path "").0 e))
    | inr e ↦ elim (Bool-cases (has_text ".." path)) [
      | inl c ↦ absurd (ground arith)
      | inr c ↦
          values_layer (ground (arith, eq_iff path "")) c (host.read_file path) refl (ground arith)
    ]
  ]

pub FileLayer-complete :
    (host : Host) (path : String) (d f : Struct)
    → FileLayer host path d f
    → file_step host path d ≡ (f, none)
unfolding load_file
FileLayer-complete host path d f (no_path e) = ground (arith, eq_iff path "")
FileLayer-complete host path d f (no_file g c r) = ground (arith, eq_iff path "")
FileLayer-complete host path d f (from_yaml {bytes} g c r (inl e) k) =
    ground (arith, eq_iff path "", eq_iff (to_lower (file_ext path)) ".yaml")
FileLayer-complete host path d f (from_yaml {bytes} g c r (inr e) k) =
    ground (arith, eq_iff path "", eq_iff (to_lower (file_ext path)) ".yml")
FileLayer-complete host path d f (from_json {bytes} g c r e k) =
    let plain_yaml : (to_lower (file_ext path) == ".yaml") ≡ false =
      subst (λ x. (x == ".yaml") ≡ false) (sym e) refl in
    let plain_yml : (to_lower (file_ext path) == ".yml") ≡ false =
      subst (λ x. (x == ".yml") ≡ false) (sym e) refl in
    ground (arith, eq_iff path "", eq_iff (to_lower (file_ext path)) ".json")

-- No path was given, or there is no file at the path, which must not hold "..".
abbrev pub NoFile : Host → String → Type 0
NoFile host path = (path ≡ "") ⊎ ((has_text ".." path ≡ false) × (host.read_file path ≡ missing))

pub unread :
    (host : Host) (path : String) (d f : Struct)
    → NoFile host path
    → FileLayer host path d f
    → d ≡ f
unread host path d f n (no_path e) = refl
unread host path d f n (no_file g c r) = refl
unread host path d f (inl n) (from_yaml g c r e k) = absurd (g n)
unread host path d f (inr n) (from_yaml g c r e k) = absurd (cc (n.1))
unread host path d f (inl n) (from_json g c r e k) = absurd (g n)
unread host path d f (inr n) (from_json g c r e k) = absurd (cc (n.1))

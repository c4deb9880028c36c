-- ===== src/Virtinjectd/Hook/ByName.antt =====
-- Sorting by path is sorting by name: all paths of a directory share its prefix.
use dra_driver_integration_e.Base.{
  ℕ, ◌≡◌, refl, sym, ap₂, ◌∙◌, List, [], ◌∷◌, ◌++◌, map, Holds, Member-All, All, All-imp, ok,
  ok_injective, Bytes, leb_bytes, leb_bytes-append,
}
use dra_driver_integration_e.Base.FilePath.{join_name, dir_prefix, IsName}
use dra_driver_integration_e.Base.Sort.{IsSorted}
use dra_driver_integration_e.Virtinjectd.Hook.{DirEntry, System, list_hook_dir}
use dra_driver_integration_e.Virtinjectd.Hook.Listing.{IsHookAmong, list_hook_dir_ok}

-- Paths under one prefix, with their names.
record Named (pre : Bytes) (paths : List Bytes) : Type 0 where
  names : List Bytes
  paths_are : paths ≡ map (λ name. pre ++ name) names

-- The order of the paths is that of the names.
below_names :
    (pre name : Bytes) (names : List Bytes)
    → All (λ path. Holds (leb_bytes (pre ++ name) path)) (map (λ n. pre ++ n) names)
    → All (λ n. Holds (leb_bytes name n)) names
below_names pre name [] h = tt
below_names pre name (n ∷ names) (first, h) =
    (rw leb_bytes-append at first, below_names pre name names h)

IsSorted-names :
    (pre : Bytes) (names : List Bytes)
    → IsSorted leb_bytes (map (λ n. pre ++ n) names)
    → IsSorted leb_bytes names
IsSorted-names pre [] h = tt
IsSorted-names pre (n ∷ names) (first, h) =
    (below_names pre n names first, IsSorted-names pre names h)

name_paths :
    (pre : Bytes) (paths : List Bytes)
    → All (λ path. (name : Bytes) × (path ≡ pre ++ name)) paths
    → Named pre paths
name_paths pre [] h = record { names = []; paths_are = refl }
name_paths pre (path ∷ paths) ((name, is), h) =
    let rest = name_paths pre paths h in
    record { names = name ∷ rest.names; paths_are = ap₂ ◌∷◌ is rest.paths_are }

module _ (S : System) (w : S.World) (c : ℕ) (dir : Bytes) where
  named_hook :
      (entries : List DirEntry)
      → All (λ entry. IsName entry.name) entries
      → (path : Bytes) → IsHookAmong S w (c ∷ dir) entries path
      → (name : Bytes) × (path ≡ dir_prefix (c ∷ dir) ++ name)
  named_hook entries named path (entry, member, hook) = (
    entry.name,
    hook.path_is
        ∙ join_name c dir entry.name (Member-All (λ e. IsName e.name) entry entries named member),
  )

  -- Where the directory's entries have file names, as the file system gives them, the hooks are
  -- listed in the alphabetical order of their file names, each being the directory's prefix and its
  -- name.
  pub list_hook_dir_by_name :
      (entries : List DirEntry) (hooks : List Bytes)
      → S.read_dir w (c ∷ dir) ≡ ok entries
      → All (λ entry. IsName entry.name) entries
      → list_hook_dir S w (c ∷ dir) ≡ ok hooks
      → (names : List Bytes) × (hooks ≡ map (λ name. dir_prefix (c ∷ dir) ++ name) names)
        × IsSorted leb_bytes names
  list_hook_dir_by_name entries hooks read named h =
      let listed = list_hook_dir_ok S w (c ∷ dir) hooks h in
      let same : listed.entries ≡ entries = ok_injective (sym listed.read ∙ read) in
      let found =
        name_paths (dir_prefix (c ∷ dir)) hooks
          (All-imp _ _ (named_hook listed.entries (rw same named)) hooks listed.sound) in
      (
        found.names,
        found.paths_are,
        IsSorted-names (dir_prefix (c ∷ dir)) found.names (rw found.paths_are at listed.sorted),
      )

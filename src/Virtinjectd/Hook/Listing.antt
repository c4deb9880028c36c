-- ===== src/Virtinjectd/Hook/Listing.antt =====
-- `listHookDir`: which files are hooks, and in which order.
use mathlib.Core.Path.{subst}
use dra_driver_integration_e.Base.{
  ◌↔◌, Member-All, ◌≡◌, refl, sym, ◌∙◌, inl, inr, true, false, some, List, [], ◌∷◌, arith,
  Option-cases, Member, All, All-imp, Result, ok, err, ok_injective, Bytes, leb_bytes,
  leb_bytes_total, leb_bytes_trans,
}
use dra_driver_integration_e.Base.FilePath.{join}
use dra_driver_integration_e.Base.Sort.{IsSorted, sort, sort-IsSorted, sort-All, sort-Member}
use dra_driver_integration_e.Virtinjectd.Hook.{
  regular, FileInfo, is_executable, DirEntry, System, hook_of_entry, hooks_of_entries,
  list_hook_dir,
}

-- A path is that of a hook: a file of the directory, regular behind its links, that somebody may
-- execute.
pub record IsHook (S : System) (w : S.World) (dir_path : Bytes) (entry : DirEntry) (path : Bytes)
    : Type 0 where
  pub not_dir : entry.is_dir ≡ false
  pub path_is : path ≡ join (dir_path ∷ entry.name ∷ [])
  pub info : FileInfo
  pub stated : S.stat w path ≡ ok info
  pub kind_is : info.kind ≡ regular
  pub executable : is_executable info ≡ true

module _ (S : System) (w : S.World) (dir_path : Bytes) where
  hook_of_entry-IsHook :
      (entry : DirEntry) (path : Bytes)
      → hook_of_entry S w dir_path entry ≡ some path
      → IsHook S w dir_path entry path
  unfolding hook_of_entry
  hook_of_entry-IsHook entry path h = go (S.stat w (join (dir_path ∷ entry.name ∷ []))) refl
    where
      go :
          (s : Result Bytes FileInfo)
          → S.stat w (join (dir_path ∷ entry.name ∷ [])) ≡ s
          → IsHook S w dir_path entry path
      go (err e) p = absurd (ground arith)
      go (ok info) p = record {
        not_dir = ground arith;
        path_is = ground arith;
        info = info;
        stated = ground arith;
        kind_is = ground arith;
        executable = ground arith;
      }

  hook_of_entry_complete :
      (entry : DirEntry) (path : Bytes)
      → IsHook S w dir_path entry path
      → hook_of_entry S w dir_path entry ≡ some path
  unfolding hook_of_entry
  hook_of_entry_complete entry path h = ground arith

  -- A path is a hook for one of the entries.
  abbrev pub IsHookAmong : List DirEntry → Bytes → Type 0
  IsHookAmong entries path =
      (entry : DirEntry) × Member entry entries × IsHook S w dir_path entry path

  later_entry :
      (e : DirEntry) (entries : List DirEntry) (path : Bytes)
      → IsHookAmong entries path
      → IsHookAmong (e ∷ entries) path
  later_entry e entries path (entry, member, hook) = (entry, inr member, hook)

  hooks_of_entries_sound :
      (entries : List DirEntry) → All (IsHookAmong entries) (hooks_of_entries S w dir_path entries)
  unfolding hooks_of_entries
  hooks_of_entries_sound [] = tt
  hooks_of_entries_sound (e ∷ entries) =
      let rest =
        All-imp (IsHookAmong entries) (IsHookAmong (e ∷ entries)) (later_entry e entries) _
          (hooks_of_entries_sound entries) in
      elim (Option-cases (hook_of_entry S w dir_path e)) [
        | inl skipped ↦ rw (skipped, hooks_of_entries) rest
        | inr (path, added) ↦
            rw (added, hooks_of_entries) ((e, inl refl, hook_of_entry-IsHook e path added), rest)
      ]

  hooks_of_entries_complete :
      (entries : List DirEntry) (entry : DirEntry) (path : Bytes)
      → Member entry entries
      → IsHook S w dir_path entry path
      → Member path (hooks_of_entries S w dir_path entries)
  unfolding hooks_of_entries
  hooks_of_entries_complete [] entry path member h = elim member [ ]
  hooks_of_entries_complete (e ∷ entries) entry path (inl here) h =
      rw (rw here at (hook_of_entry_complete entry path h), hooks_of_entries) (inl refl)
  hooks_of_entries_complete (e ∷ entries) entry path (inr later) h =
      elim (Option-cases (hook_of_entry S w dir_path e)) [
        | inl skipped ↦
            rw (skipped, hooks_of_entries) (hooks_of_entries_complete entries entry path later h)
        | inr (other, added) ↦
            rw (added, hooks_of_entries)
              (inr (hooks_of_entries_complete entries entry path later h))
      ]

  -- A listing in order, of hooks of the directory only.
  pub record Lists (hooks : List Bytes) : Type 0 where
    pub entries : List DirEntry
    pub read : S.read_dir w dir_path ≡ ok entries
    pub sorted : IsSorted leb_bytes hooks
    pub sound : All (IsHookAmong entries) hooks

  list_hook_dir_read :
      (hooks : List Bytes)
      → list_hook_dir S w dir_path ≡ ok hooks
      → (entries : List DirEntry) × (S.read_dir w dir_path ≡ ok entries)
        × (sort leb_bytes (hooks_of_entries S w dir_path entries) ≡ hooks)
  unfolding list_hook_dir
  list_hook_dir_read hooks h = go (S.read_dir w dir_path) refl
    where
      go :
          (r : Result Bytes (List DirEntry))
          → S.read_dir w dir_path ≡ r
          → (entries : List DirEntry) × (S.read_dir w dir_path ≡ ok entries)
            × (sort leb_bytes (hooks_of_entries S w dir_path entries) ≡ hooks)
      go (err e) p = absurd (ground arith)
      go (ok entries) p = (entries, p, ground arith)

  -- A listing that succeeds is sorted by path, and each path in it is that of a file of the
  -- directory that is regular behind its links and that somebody may execute.
  pub list_hook_dir_ok : (hooks : List Bytes) → list_hook_dir S w dir_path ≡ ok hooks → Lists hooks
  list_hook_dir_ok hooks h =
      let (entries, read, is) = list_hook_dir_read hooks h in
      record {
        entries = entries;
        read = read;
        sorted = rw (← is) (sort-IsSorted leb_bytes leb_bytes_total leb_bytes_trans _);
        sound =
            subst (All (IsHookAmong entries)) is
              (sort-All leb_bytes _ _ (hooks_of_entries_sound entries));
      }

  -- No file of the directory that is regular behind its links, and that somebody may execute, is
  -- missing in a listing that succeeds.
  pub list_hook_dir_complete :
      (hooks : List Bytes) (entries : List DirEntry) (entry : DirEntry) (path : Bytes)
      → list_hook_dir S w dir_path ≡ ok hooks
      → S.read_dir w dir_path ≡ ok entries
      → Member entry entries
      → IsHook S w dir_path entry path
      → Member path hooks
  list_hook_dir_complete hooks entries entry path h read member hook =
      let (entries', read', is) = list_hook_dir_read hooks h in
      let same : entries ≡ entries' = ok_injective (sym read ∙ read') in
      subst (Member path) is (
        sort-Member leb_bytes path _
          (hooks_of_entries_complete entries' entry path (subst (Member entry) same member) hook))

  -- A listing that succeeds is sorted by path, and has exactly the paths of the directory's files
  -- that are regular behind their links and that somebody may execute.
  pub list_hook_dir-IsHookAmong :
      (hooks : List Bytes) (entries : List DirEntry)
      → list_hook_dir S w dir_path ≡ ok hooks
      → S.read_dir w dir_path ≡ ok entries
      → IsSorted leb_bytes hooks × ((path : Bytes) → Member path hooks ↔ IsHookAmong entries path)
  list_hook_dir-IsHookAmong hooks entries h read =
      let listed = list_hook_dir_ok hooks h in
      let same : listed.entries ≡ entries = ok_injective (sym listed.read ∙ read) in
      let sound = subst (λ es. All (IsHookAmong es) hooks) same listed.sound in
      (
        listed.sorted,
        λ path. (
          λ m. Member-All (IsHookAmong entries) path hooks sound m,
          λ (entry, member, hook).
              list_hook_dir_complete hooks entries entry path h read member hook,
        ),
      )

-- ===== src/Containerd/Outcome.antt =====
-- What a configuration is after the edits: what they set, and what they leave alone.
use dra_driver_integration_e.Base.{
  ◌≡◌, refl, sym, ap, ◌∙◌, ◌⊎◌, inl, inr, false, none, some, arith, Bytes, codes, eq_bytes,
}
use dra_driver_integration_e.Containerd.{
  table, Table, get, as_table, get_map, plugins_key, nri_key, cri_key, nri_settings, process_nri,
  process_plugins, process,
}
use dra_driver_integration_e.Containerd.Tables.{get-set, get-set_other}
use dra_driver_integration_e.Containerd.Edits.{
  IsSettled, edit_cri, edit_cri-IsSettled, edit_cri_other, plugins_cases, nri-process_plugins,
  some-inj, process_cases,
}

-- What a configuration with a table `plugins` becomes. The table of the runtime is there where it
-- was there before, behind the edit for the resource interface.
pub record IsEdited (conf plugins after : Table) : Type 0 where
  pub edited : Table
  pub is : get after plugins_key ≡ some (table edited)
  pub nri : get edited nri_key ≡ some nri_settings
  pub cri :
      ((get_map plugins cri_key ≡ none) × (get edited cri_key ≡ get plugins cri_key))
      ⊎ ((before : Table) × (later : Table) × (get_map plugins cri_key ≡ some before)
          × (get edited cri_key ≡ some (table later))
          × IsSettled later)

cri_before : (plugins : Table) → get (process_nri plugins) cri_key ≡ get plugins cri_key
unfolding process_nri eq_bytes
cri_before plugins = get-set_other plugins nri_key cri_key nri_settings refl

-- With a table `plugins`, the setting of the resource interface is in it afterwards, and the
-- settings for devices and huge pages are in the runtime's table, if there is one.
pub process-IsEdited :
    (conf plugins : Table)
    → get_map conf plugins_key ≡ some plugins
    → IsEdited conf plugins (process conf)
unfolding get_map
process-IsEdited conf plugins h = elim (process_cases conf) [
  | inl (missing, is) ↦ absurd (ground arith)
  | inr (found, there, is) ↦
      let same : found ≡ plugins = some-inj (sym there ∙ h) in
      let before = cri_before plugins in
      record {
        edited = process_plugins plugins;
        is =
            ap (λ t. get t plugins_key) is
            ∙ get-set conf plugins_key (table (process_plugins found))
            ∙ ap (λ t. some (table (process_plugins t))) same;
        nri = nri-process_plugins plugins;
        cri = elim (plugins_cases plugins) [
          | inl (missing, was) ↦
              inl (ap as_table (sym before) ∙ missing, ap (λ t. get t cri_key) was ∙ before)
          | inr (cri, inside, was) ↦ inr (
            cri,
            edit_cri cri,
            ap as_table (sym before) ∙ inside,
            ap (λ t. get t cri_key) was
                ∙ get-set (process_nri plugins) cri_key (table (edit_cri cri)),
            edit_cri-IsSettled cri,
          )
        ];
      }
]

-- Every plugin but the two keeps its value.
process_plugins_other :
    (plugins : Table) (key : Bytes)
    → eq_bytes nri_key key ≡ false
    → eq_bytes cri_key key ≡ false
    → get (process_plugins plugins) key ≡ get plugins key
unfolding process_nri
process_plugins_other plugins key n c =
    let front = get-set_other plugins nri_key key nri_settings n in
    elim (plugins_cases plugins) [
      | inl (missing, is) ↦ ap (λ t. get t key) is ∙ front
      | inr (cri, there, is) ↦
          ap (λ t. get t key) is
          ∙ get-set_other (process_nri plugins) cri_key key (table (edit_cri cri)) c
          ∙ front
    ]

-- A setting of the runtime's table as it was, if there is such a table.
abbrev pub KeepsSetting : Table → Table → Bytes → Type 0
KeepsSetting plugins edited setting =
    (get_map plugins cri_key ≡ none)
    ⊎ ((before : Table) × (later : Table) × (get_map plugins cri_key ≡ some before)
        × (get edited cri_key ≡ some (table later))
        × (get later setting ≡ get before setting))

-- The four settings that are written.
abbrev pub IsOtherSetting : Bytes → Type 0
IsOtherSetting setting =
    (eq_bytes (codes "enable_cdi") setting ≡ false)
    × (eq_bytes (codes "cdi_spec_dirs") setting ≡ false)
    × (eq_bytes (codes "tolerate_missing_hugetlb_controller") setting ≡ false)
    × (eq_bytes (codes "disable_hugetlb_controller") setting ≡ false)

process_plugins-KeepsSetting :
    (plugins : Table) (setting : Bytes)
    → IsOtherSetting setting
    → KeepsSetting plugins (process_plugins plugins) setting
process_plugins-KeepsSetting plugins setting (e, d, t, h) =
    let before = ap as_table (sym (cri_before plugins)) in
    elim (plugins_cases plugins) [
      | inl (missing, was) ↦ inl (unfold get_map in before ∙ missing)
      | inr (cri, inside, was) ↦ inr (
        cri,
        edit_cri cri,
        unfold get_map in before ∙ inside,
        ap (λ p. get p cri_key) was ∙ get-set (process_nri plugins) cri_key (table (edit_cri cri)),
        edit_cri_other cri setting e d t h,
      )
    ]

-- With a table `plugins`, nothing else is changed: the keys of the document but `plugins`, the
-- plugins but the two, and the runtime's settings but the four keep their values.
pub process_other :
    (conf plugins : Table) (key plugin setting : Bytes)
    → get_map conf plugins_key ≡ some plugins
    → eq_bytes plugins_key key ≡ false
    → eq_bytes nri_key plugin ≡ false
    → eq_bytes cri_key plugin ≡ false
    → IsOtherSetting setting
    → (get (process conf) key ≡ get conf key)
      × ((edited : Table) × (get (process conf) plugins_key ≡ some (table edited))
          × (get edited plugin ≡ get plugins plugin)
          × KeepsSetting plugins edited setting)
process_other conf plugins key plugin setting h k n c others = elim (process_cases conf) [
  | inl (missing, is) ↦ let clash = sym missing ∙ h in absurd (ground arith)
  | inr (found, there, is) ↦
      let same : found ≡ plugins = some-inj (sym there ∙ h) in
      (
        ap (λ t. get t key) is
            ∙ get-set_other conf plugins_key key (table (process_plugins found)) k,
        (
          process_plugins plugins,
          ap (λ t. get t plugins_key) is
              ∙ get-set conf plugins_key (table (process_plugins found))
              ∙ ap (λ t. some (table (process_plugins t))) same,
          process_plugins_other plugins plugin n c,
          process_plugins-KeepsSetting plugins setting others,
        ),
      )
]

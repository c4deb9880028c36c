-- ===== src/Containerd/Edits.antt =====
-- What the edits change, and what they leave alone.
use dra_driver_integration_e.Base.{
  ◌≡◌, refl, sym, ap, ap₂, ◌∙◌, ◌⊎◌, inl, inr, true, false, Option, none, some, arith, Option-cases,
  Bytes, codes, eq_bytes,
}
use dra_driver_integration_e.Containerd.{
  flag, table, Table, get, set, get_map, plugins_key, nri_key, cri_key, nri_settings, process_nri,
  cdi_dirs, process_cdi, process_hugepages, process_plugins, process,
}
use dra_driver_integration_e.Containerd.Tables.{get-set, get-set_other, set_same}

abbrev enable : Bytes
enable = codes "enable_cdi"

abbrev dirs : Bytes
dirs = codes "cdi_spec_dirs"

abbrev tolerate : Bytes
tolerate = codes "tolerate_missing_hugetlb_controller"

abbrev disable : Bytes
disable = codes "disable_hugetlb_controller"

-- The settings for devices and huge pages.
pub record IsSettled (cri : Table) : Type 0 where
  pub cdi_enabled : get cri (codes "enable_cdi") ≡ some (flag true)
  pub cdi_dirs_set : get cri (codes "cdi_spec_dirs") ≡ some cdi_dirs
  pub strict : get cri (codes "tolerate_missing_hugetlb_controller") ≡ some (flag false)
  pub hugetlb : get cri (codes "disable_hugetlb_controller") ≡ some (flag false)

pub edit_cri : Table → Table
edit_cri cri = process_hugepages (process_cdi cri)

pub edit_cri-IsSettled : (cri : Table) → IsSettled (edit_cri cri)
unfolding edit_cri process_cdi process_hugepages eq_bytes
edit_cri-IsSettled cri =
    let a = set cri enable (flag true) in
    let b = set a dirs cdi_dirs in
    let c = set b tolerate (flag false) in
    record {
      cdi_enabled =
          get-set_other c disable enable (flag false) refl
          ∙ get-set_other b tolerate enable (flag false) refl
          ∙ get-set_other a dirs enable cdi_dirs refl
          ∙ get-set cri enable (flag true);
      cdi_dirs_set =
          get-set_other c disable dirs (flag false) refl
          ∙ get-set_other b tolerate dirs (flag false) refl
          ∙ get-set a dirs cdi_dirs;
      strict = get-set_other c disable tolerate (flag false) refl ∙ get-set b tolerate (flag false);
      hugetlb = get-set c disable (flag false);
    }

settled_fixed : (cri : Table) → IsSettled cri → edit_cri cri ≡ cri
unfolding edit_cri process_cdi process_hugepages
settled_fixed cri s =
    rw
      (
        set_same cri enable (flag true) s.cdi_enabled,
        set_same cri dirs cdi_dirs s.cdi_dirs_set,
        set_same cri tolerate (flag false) s.strict,
        set_same cri disable (flag false) s.hugetlb,
      )
      refl

-- A key that none of the four is.
pub edit_cri_other :
    (cri : Table) (key : Bytes)
    → eq_bytes enable key ≡ false
    → eq_bytes dirs key ≡ false
    → eq_bytes tolerate key ≡ false
    → eq_bytes disable key ≡ false
    → get (edit_cri cri) key ≡ get cri key
unfolding edit_cri process_cdi process_hugepages
edit_cri_other cri key e d t h =
    let a = set cri enable (flag true) in
    let b = set a dirs cdi_dirs in
    let c = set b tolerate (flag false) in
    get-set_other c disable key (flag false) h
    ∙ get-set_other b tolerate key (flag false) t
    ∙ get-set_other a dirs key cdi_dirs d
    ∙ get-set_other cri enable key (flag true) e

get_map-table :
    (t : Table) (key : Bytes) (inner : Table)
    → get t key ≡ some (table inner)
    → get_map t key ≡ some inner
unfolding get_map
get_map-table t key inner h = rw h refl

-- The two outcomes of the edits of the table `plugins`.
pub plugins_cases :
    (plugins : Table)
    → ((get_map (process_nri plugins) cri_key ≡ none)
        × (process_plugins plugins ≡ process_nri plugins))
      ⊎ ((cri : Table) × (get_map (process_nri plugins) cri_key ≡ some cri)
          × (process_plugins plugins ≡ set (process_nri plugins) cri_key (table (edit_cri cri))))
unfolding process_plugins edit_cri
plugins_cases plugins = elim (Option-cases (get_map (process_nri plugins) cri_key)) [
  | inl missing ↦ inl (missing, ground arith)
  | inr (cri, there) ↦ inr (cri, there, ground arith)
]

pub nri-process_plugins :
    (plugins : Table) → get (process_plugins plugins) nri_key ≡ some nri_settings
unfolding process_nri eq_bytes
nri-process_plugins plugins =
    let written = get-set plugins nri_key nri_settings in
    elim (plugins_cases plugins) [
      | inl (missing, is) ↦ ap (λ t. get t nri_key) is ∙ written
      | inr (cri, there, is) ↦
          ap (λ t. get t nri_key) is
          ∙ get-set_other (process_nri plugins) cri_key nri_key (table (edit_cri cri)) refl
          ∙ written
    ]

pub some-inj : {A : Type 0} {a b : A} → ◌≡◌ {A = Option A} (some a) (some b) → a ≡ b
some-inj h = cc

-- A second edit of `plugins` finds what the first has written.
edited_twice :
    (p front cri cri' : Table)
    → process_nri p ≡ p
    → get_map (process_nri p) cri_key ≡ some cri
    → process_plugins p ≡ set (process_nri p) cri_key (table (edit_cri cri))
    → p ≡ set front cri_key (table (edit_cri cri'))
    → process_plugins p ≡ p
edited_twice p front cri cri' same there is was =
    let held = ap (λ t. get t cri_key) was ∙ get-set front cri_key (table (edit_cri cri')) in
    let opened = get_map-table p cri_key (edit_cri cri') held in
    let found : cri ≡ edit_cri cri' =
      some-inj (sym there ∙ ap (λ t. get_map t cri_key) same ∙ opened) in
    let fixed : edit_cri cri ≡ edit_cri cri' =
      ap edit_cri found ∙ settled_fixed (edit_cri cri') (edit_cri-IsSettled cri') in
    is
    ∙ ap₂ (λ t c. set t cri_key (table c)) same fixed
    ∙ set_same p cri_key (table (edit_cri cri')) held

process_plugins_fixed :
    (plugins : Table) → process_plugins (process_plugins plugins) ≡ process_plugins plugins
process_plugins_fixed plugins =
    let p = process_plugins plugins in
    let same : process_nri p ≡ p =
      unfold process_nri in set_same p nri_key nri_settings (nri-process_plugins plugins) in
    elim (plugins_cases p) [
      | inl (missing, is) ↦ is ∙ same
      | inr (cri, there, is) ↦ elim (plugins_cases plugins) [
        | inl (missing, was) ↦
            let clash = sym there ∙ ap (λ t. get_map t cri_key) (same ∙ was) ∙ missing in
            absurd (ground arith)
        | inr (cri', there', was) ↦ edited_twice p (process_nri plugins) cri cri' same there is was
      ]
    ]

pub process_cases :
    (conf : Table)
    → ((get_map conf plugins_key ≡ none) × (process conf ≡ conf))
      ⊎ ((plugins : Table) × (get_map conf plugins_key ≡ some plugins)
          × (process conf ≡ set conf plugins_key (table (process_plugins plugins))))
unfolding process
process_cases conf = elim (Option-cases (get_map conf plugins_key)) [
  | inl missing ↦ inl (missing, ground arith)
  | inr (plugins, there) ↦ inr (plugins, there, ground arith)
]

-- The edits made twice are the edits made once.
pub process-process : (conf : Table) → process (process conf) ≡ process conf
process-process conf = elim (process_cases conf) [
  | inl (missing, is) ↦ ap process is
  | inr (plugins, there, is) ↦
      let edited = process_plugins plugins in
      let held = ap (λ t. get t plugins_key) is ∙ get-set conf plugins_key (table edited) in
      let opened = get_map-table (process conf) plugins_key edited held in
      elim (process_cases (process conf)) [
        | inl (missing, again) ↦ again
        | inr (found, there', again) ↦
            let same : found ≡ edited = some-inj (sym there' ∙ opened) in
            let fixed = ap process_plugins same ∙ process_plugins_fixed plugins in
            again
            ∙ ap (λ t. set (process conf) plugins_key (table t)) fixed
            ∙ set_same (process conf) plugins_key (table edited) held
      ]
]

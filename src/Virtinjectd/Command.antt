-- ===== src/Virtinjectd/Command.antt =====
-- virtinjectd/main.go: the level of the log, the start of the proxy and its end. Flags and signals
-- are left out; the sockets are a parameter over the state of the hooks.
use dra_driver_integration_e.Base.{
  ℕ, zero, suc, ◌-◌, ◌*◌, ◌%◌, ◌^◌, ◌<◌, ◌≡◌, refl, ◌⊎◌, inl, inr, Bool, true, false, not, ◌&&◌,
  Option, none, some, arith, leb, if◌then◌else◌, Bool-cases, Result, ok, err, Bytes,
}
use dra_driver_integration_e.Base.Int.{ℤ, pos, negsuc, leb_ℤ, neg_ℕ}
use dra_driver_integration_e.Virtinjectd.Hook.{
  System, HookChain, HookError, is_empty, new_hook_chain,
}

pub record Flags : Type 0 where
  pub listen : Bytes
  pub upstream : Bytes
  pub hook : Bytes
  pub hook_dir : Bytes
  pub hook_domain_name : Bytes
  pub verbosity : ℤ

abbrev pub level_info : ℤ
level_info = pos 0

abbrev pub level_debug : ℤ
level_debug = negsuc 3

abbrev pub level_trace : ℤ
level_trace = negsuc 7

abbrev pub level_trace_xml : ℤ
level_trace_xml = negsuc 11

-- `-k` in the 64 bits of `int`.
abbrev negated : ℕ → ℤ
negated k = let low = k % 2 ^ 64 in if leb low (2 ^ 63) then neg_ℕ low else pos (2 ^ 64 - low)

-- Whether the output is discarded, and the level.
unfoldable pub log_setting : ℤ → Bool × ℤ
log_setting (negsuc n) = (true, level_info)
log_setting (pos zero) = (true, level_info)
log_setting (pos (suc n)) = (false, negated (4 * n))

-- `slog`: a message is shown if its level is not below that of the handler.
unfoldable pub shows : ℤ → ℤ → Bool
shows verbosity message_level =
    let (discarded, level) = log_setting verbosity in not discarded && leb_ℤ level message_level

-- `os.Remove` fails because there is no file, or for another reason.
pub data RemoveError : Type 0 where
  missing refused : Bytes → RemoveError

pub record Sockets (W : Type 0) : Type 0 where
  pub remove : W → Bytes → Option RemoveError × W
  pub listen : W → Bytes → Option Bytes × W
  pub close : W → W

-- A start ends with a status, or with the chain that the accept loop is given.
pub data Start : Type 0 where
  exit : ℕ → Start
  serving : HookChain → Start

module _ (S : System) (sockets : Sockets S.World) where
  -- `net.Listen` behind the removal of a stale socket.
  open_listener : S.World → Bytes → HookChain → Start × S.World
  open_listener w path hooks =
      let (failure, w') = sockets.listen w path in
      (elim failure [ some e ↦ exit 1 | none ↦ serving hooks ], w')

  prepare_socket : S.World → Bytes → HookChain → Start × S.World
  prepare_socket w path hooks =
      let (failure, w') = sockets.remove w path in
      elim failure [
        | some (refused e) ↦ (exit 1, w')
        | some (missing e) ↦ open_listener w' path hooks
        | none ↦ open_listener w' path hooks
      ]

  -- `main` up to the accept loop.
  unfoldable pub start : S.World → Flags → Start × S.World
  unfolding prepare_socket open_listener
  start w flags =
      if is_empty flags.hook && is_empty flags.hook_dir
      then (exit 1, w)
      else elim (new_hook_chain S w flags.hook flags.hook_dir flags.hook_domain_name) [
        | err e ↦ (exit 1, w)
        | ok hooks ↦ prepare_socket w flags.listen hooks
      ]

  -- The deferred function of `main`.
  unfoldable pub shutdown : S.World → Flags → S.World
  shutdown w flags = (sockets.remove (sockets.close w) flags.listen).1

  -- The socket was opened, or the status is 1.
  IsOpened : S.World → Bytes → HookChain → Start → S.World → Type 0
  IsOpened w path hooks result w' =
      ((result ≡ serving hooks) × (sockets.listen w path ≡ (none, w'))) ⊎ (result ≡ exit 1)

  open_listener-IsOpened :
      (w : S.World) (path : Bytes) (hooks : HookChain) (result : Start) (w' : S.World)
      → open_listener w path hooks ≡ (result, w')
      → IsOpened w path hooks result w'
  unfolding open_listener IsOpened
  open_listener-IsOpened w path hooks result w' h =
      go (sockets.listen w path).0 (sockets.listen w path).1 refl
    where
      go :
          (l : Option Bytes) (v : S.World)
          → sockets.listen w path ≡ (l, v)
          → ((result ≡ serving hooks) × (sockets.listen w path ≡ (none, w'))) ⊎ (result ≡ exit 1)
      go (some e) v p = inr (ground arith)
      go none v p = inl (ground arith, ground arith)

  -- Nothing stands at the path any more.
  abbrev pub IsRemoved : S.World → Bytes → Type 0
  IsRemoved w path =
      ((sockets.remove w path).0 ≡ none)
      ⊎ ((e : Bytes) × ((sockets.remove w path).0 ≡ some (missing e)))

  IsPrepared : S.World → Bytes → HookChain → Start → S.World → Type 0
  IsPrepared w path hooks result w' =
      (IsRemoved w path × IsOpened (sockets.remove w path).1 path hooks result w')
      ⊎ (result ≡ exit 1)

  prepare_socket-IsPrepared :
      (w : S.World) (path : Bytes) (hooks : HookChain) (result : Start) (w' : S.World)
      → prepare_socket w path hooks ≡ (result, w')
      → IsPrepared w path hooks result w'
  unfolding prepare_socket IsPrepared
  prepare_socket-IsPrepared w path hooks result w' h = go (sockets.remove w path).0 refl
    where
      go :
          (r : Option RemoveError)
          → (sockets.remove w path).0 ≡ r
          → (IsRemoved w path × IsOpened (sockets.remove w path).1 path hooks result w')
            ⊎ (result ≡ exit 1)
      go none p = inl (
        inl p,
        open_listener-IsOpened (sockets.remove w path).1 path hooks result w' (ground arith),
      )
      go (some (missing e)) p = inl (
        inr (e, p),
        open_listener-IsOpened (sockets.remove w path).1 path hooks result w' (ground arith),
      )
      go (some (refused e)) p = inr (ground arith)

  start_checked :
      (w : S.World) (flags : Flags) (result : Start) (w' : S.World)
      → start w flags ≡ (result, w')
      → ((result ≡ exit 1) × (w' ≡ w))
        ⊎ ((hooks : HookChain) × (new_hook_chain S w flags.hook flags.hook_dir
                flags.hook_domain_name
              ≡ ok hooks)
            × IsPrepared w flags.listen hooks result w')
  unfolding start
  start_checked w flags result w' h =
      elim (Bool-cases (is_empty flags.hook && is_empty flags.hook_dir)) [
        | inl empty ↦ inl (ground arith)
        | inr given ↦
            go given (new_hook_chain S w flags.hook flags.hook_dir flags.hook_domain_name) refl
      ]
    where
      go :
          is_empty flags.hook && is_empty flags.hook_dir ≡ false
          → (r : Result HookError HookChain)
          → new_hook_chain S w flags.hook flags.hook_dir flags.hook_domain_name ≡ r
          → ((result ≡ exit 1) × (w' ≡ w))
            ⊎ ((hooks : HookChain) × (new_hook_chain S w flags.hook flags.hook_dir
                    flags.hook_domain_name
                  ≡ ok hooks)
                × IsPrepared w flags.listen hooks result w')
      go given (err e) p = inl (ground arith)
      go given (ok hooks) p =
          inr (hooks, p, prepare_socket-IsPrepared w flags.listen hooks result w' (ground arith))

  -- A start that stops exits with status 1, and where the checks of the hooks failed it has changed
  -- nothing. Otherwise the proxy serves with the chain that passed them, on a socket that was
  -- opened once what stood at its path had been removed, or found missing.
  pub start_lem :
      (w : S.World) (flags : Flags) (result : Start) (w' : S.World)
      → start w flags ≡ (result, w')
      → ((result ≡ exit 1)
          × ((w' ≡ w)
              ⊎ ((hooks : HookChain) × (new_hook_chain S w flags.hook flags.hook_dir
                      flags.hook_domain_name
                    ≡ ok hooks))))
        ⊎ ((hooks : HookChain) × (result ≡ serving hooks)
            × (new_hook_chain S w flags.hook flags.hook_dir flags.hook_domain_name ≡ ok hooks)
            × IsRemoved w flags.listen
            × (sockets.listen (sockets.remove w flags.listen).1 flags.listen ≡ (none, w')))
  unfolding IsOpened IsPrepared
  start_lem w flags result w' h = elim (start_checked w flags result w' h) [
    | inl (stopped, same) ↦ inl (stopped, inl same)
    | inr (hooks, built, inl (removed, inl (served, opened))) ↦
        inr (hooks, served, built, removed, opened)
    | inr (hooks, built, inl (removed, inr stopped)) ↦ inl (stopped, inr (hooks, built))
    | inr (hooks, built, inr stopped) ↦ inl (stopped, inr (hooks, built))
  ]

-- The four levels of the log: each is shown from its verbosity on, which is 1 for messages of the
-- level Info, 2 for Debug, 3 for Trace and 4 for Trace with XML.
shows_lem :
    (n : ℕ)
    → n < 2 ^ 60
    → (shows (pos n) level_info ≡ leb 1 n)
      × (shows (pos n) level_debug ≡ leb 2 n)
      × (shows (pos n) level_trace ≡ leb 3 n)
      × (shows (pos n) level_trace_xml ≡ leb 4 n)
unfolding shows log_setting
shows_lem zero h = ground arith
shows_lem (suc n) h = let low : 4 * n % 2 ^ 64 ≡ 4 * n = omega arith in ground arith

-- ===== src/Base/FilePath.antt =====
-- `strings.Split` at a byte, and `filepath.Join` with its `filepath.Clean`, on Unix.
use Prim.Native.Nat.{ℕ}
use mathlib.Core.Path.{◌≡◌, refl, sym, ap, ◌∙◌}
use mathlib.Core.Logic.{◌≢◌}
use mathlib.Core.Bool.{Bool, true, false, ◌||◌}
use mathlib.Core.List.{List, [], ◌∷◌, ◌++◌, foldl, foldl-append, append_assoc, append-nil}
use native.Mathlib.Omega.{arith}
use dra_driver_integration_e.Base.Tests.{◌==◌, if◌then◌else◌}
use dra_driver_integration_e.Base.Lists.{All}
use dra_driver_integration_e.Base.Order.{Bytes, codes, eq_bytes}

onto_head : ℕ → List Bytes → List Bytes
onto_head c [] = (c ∷ []) ∷ []
onto_head c (p ∷ ps) = (c ∷ p) ∷ ps

-- `strings.Split(s, sep)` where `sep` is one byte.
unfoldable pub split : ℕ → Bytes → List Bytes
unfolding onto_head
split sep [] = [] ∷ []
split sep (c ∷ s) = let rest = split sep s in if c == sep then [] ∷ rest else onto_head c rest

abbrev pub Lacks : ℕ → Bytes → Type 0
Lacks b = All (λ c. c ≢ b)

split-ne-nil : (sep : ℕ) (s : Bytes) → split sep s ≢ []
unfolding split
split-ne-nil sep [] h = cc
split-ne-nil sep (c ∷ s) h = ground (arith, split-ne-nil sep s)

onto_head-append :
    (c : ℕ) (ps qs : List Bytes) → ps ≢ [] → onto_head c (ps ++ qs) ≡ onto_head c ps ++ qs
unfolding onto_head
onto_head-append c [] qs h = absurd (h refl)
onto_head-append c (p ∷ ps) qs h = refl

-- A separator ends the parts of what stands in front of it.
pub split-append : (sep : ℕ) (s t : Bytes) → split sep (s ++ (sep ∷ t)) ≡ split sep s ++ split sep t
unfolding split
split-append sep [] t = ground arith
split-append sep (c ∷ s) t = ground (
  arith,
  split-append sep s t,
  onto_head-append c (split sep s) (split sep t),
  split-ne-nil sep s,
)

pub split-Lacks : (sep : ℕ) (s : Bytes) → Lacks sep s → split sep s ≡ s ∷ []
unfolding split
split-Lacks sep [] h = refl
split-Lacks sep (c ∷ s) (ne, h) = ground (arith, split-Lacks sep s h)

-- The parts with the separator between them.
abbrev pub rejoin : ℕ → List Bytes → Bytes
rejoin sep [] = []
rejoin sep (p ∷ []) = p
rejoin sep (p ∷ q ∷ ps) = p ++ (sep ∷ rejoin sep (q ∷ ps))

rejoin-onto_head :
    (sep c : ℕ) (ps : List Bytes) → ps ≢ [] → rejoin sep (onto_head c ps) ≡ c ∷ rejoin sep ps
unfolding onto_head
rejoin-onto_head sep c [] h = absurd (h refl)
rejoin-onto_head sep c (p ∷ []) h = refl
rejoin-onto_head sep c (p ∷ q ∷ ps) h = refl

rejoin-nil : (sep : ℕ) (ps : List Bytes) → ps ≢ [] → rejoin sep ([] ∷ ps) ≡ sep ∷ rejoin sep ps
rejoin-nil sep [] h = absurd (h refl)
rejoin-nil sep (q ∷ ps) h = refl

-- `split` loses nothing.
pub rejoin-split : (sep : ℕ) (s : Bytes) → rejoin sep (split sep s) ≡ s
unfolding split
rejoin-split sep [] = refl
rejoin-split sep (c ∷ s) = ground (
  arith,
  rejoin-split sep s,
  rejoin-onto_head sep c (split sep s) (split-ne-nil sep s),
  rejoin-nil sep (split sep s) (split-ne-nil sep s),
)

-- `..` takes the last part back, unless that is a `..` too; at the root there is nothing to take.
back_up : Bool → List Bytes → List Bytes
back_up rooted [] = if rooted then [] else codes ".." ∷ []
back_up rooted (top ∷ stack) = if eq_bytes top (codes "..") then codes ".." ∷ top ∷ stack else stack

-- One round of `Clean`; the parts so far stand in reverse order.
push_part : Bool → List Bytes → Bytes → List Bytes
push_part rooted stack part =
    if eq_bytes part [] || eq_bytes part (codes ".")
    then stack
    else if eq_bytes part (codes "..")
    then back_up rooted stack
    else part ∷ stack

-- Each part with a slash between it and the next.
joined : List Bytes → Bytes
joined [] = []
joined (p ∷ []) = p
joined (p ∷ q ∷ stack) = joined (q ∷ stack) ++ (b'/' ∷ p)

render : Bool → List Bytes → Bytes
render true stack = b'/' ∷ joined stack
render false [] = codes "."
render false (p ∷ stack) = joined (p ∷ stack)

is_rooted : Bytes → Bool
is_rooted [] = false
is_rooted (c ∷ s) = c == b'/'

unfoldable pub clean : Bytes → Bytes
unfolding push_part back_up joined render is_rooted
clean path =
    let rooted = is_rooted path in render rooted (foldl (push_part rooted) [] (split b'/' path))

slashed : List Bytes → Bytes
slashed [] = []
slashed (p ∷ ps) = b'/' ∷ (p ++ slashed ps)

-- `filepath.Join`: the parts from the first that is not empty.
unfoldable pub join : List Bytes → Bytes
unfolding slashed
join [] = []
join ([] ∷ ps) = join ps
join ((c ∷ p) ∷ ps) = clean ((c ∷ p) ++ slashed ps)

-- A file's own name: a part that `Clean` keeps.
pub record IsName (name : Bytes) : Type 0 where
  pub no_slash : Lacks b'/' name
  pub not_empty : eq_bytes name [] ≡ false
  pub not_dot : eq_bytes name (codes ".") ≡ false
  pub not_dots : eq_bytes name (codes "..") ≡ false

-- What `Clean` puts in front of the last part.
in_front : Bool → List Bytes → Bytes
in_front true [] = codes "/"
in_front false [] = []
in_front true (p ∷ stack) = b'/' ∷ (joined (p ∷ stack) ++ codes "/")
in_front false (p ∷ stack) = joined (p ∷ stack) ++ codes "/"

render-in_front :
    (rooted : Bool) (stack : List Bytes) (name : Bytes)
    → render rooted (name ∷ stack) ≡ in_front rooted stack ++ name
unfolding in_front clean
render-in_front true [] name = refl
render-in_front false [] name = refl
render-in_front true (p ∷ stack) name =
    ap (◌∷◌ b'/') (sym (append_assoc (joined (p ∷ stack)) (codes "/") name))
render-in_front false (p ∷ stack) name = sym (append_assoc (joined (p ∷ stack)) (codes "/") name)

-- The directory as it stands in the paths of its files.
pub dir_prefix : Bytes → Bytes
dir_prefix dir =
    let rooted = is_rooted dir in in_front rooted (foldl (push_part rooted) [] (split b'/' dir))

push_name :
    (rooted : Bool) (stack : List Bytes) (name : Bytes)
    → IsName name
    → push_part rooted stack name ≡ name ∷ stack
unfolding clean
push_name rooted stack name n = ground arith

parts_name :
    (rooted : Bool) (dir name : Bytes)
    → IsName name
    → foldl (push_part rooted) [] (split b'/' (dir ++ (b'/' ∷ name)))
      ≡ name ∷ foldl (push_part rooted) [] (split b'/' dir)
parts_name rooted dir name n =
    rw
      (
        split-append b'/' dir name,
        split-Lacks b'/' name n.no_slash,
        foldl-append (push_part rooted) [] (split b'/' dir) (name ∷ []),
      )
      (push_name rooted (foldl (push_part rooted) [] (split b'/' dir)) name n)

-- The path of a file in a directory is a prefix that depends on the directory alone, and the name.
pub join_name :
    (c : ℕ) (dir name : Bytes)
    → IsName name
    → join ((c ∷ dir) ∷ name ∷ []) ≡ dir_prefix (c ∷ dir) ++ name
unfolding join clean dir_prefix
join_name c dir name n = rw append-nil (
    ap (render (c == b'/')) (parts_name (c == b'/') (c ∷ dir) name n)
    ∙ render-in_front (c == b'/') _ name)

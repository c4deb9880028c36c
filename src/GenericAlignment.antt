-- ===== src/GenericAlignment.antt =====
-- validation/generic/alignment/main.go: the check of the container that the command runs in. The
-- packages that look at the container and at the machine, and the JSON encoder, are parameters.
use dra_driver_integration_e.Base.{◌≡◌, Result, ok, ◌>>=◌, map_err, bind_ok, map_err_ok, Bytes}

-- What the calls are given and give.
pub record Checker : Type 1 where
  pub Environ : Type 0
  pub Container : Type 0
  pub Machine : Type 0
  pub Alignment : Type 0
  pub environ : Environ
  pub discover_container : Environ → Result Bytes Container
  pub discover_machine : Environ → Result Bytes Machine
  pub check : Environ → Container → Machine → Result Bytes Alignment
  pub encode : Alignment → Result Bytes Bytes

-- The messages of `log.Fatalf`.
pub data Failure : Type 0 where
  no_resources no_machine no_alignment no_response : Bytes → Failure

module _ (K : Checker) where
  -- `main` up to its wait for a signal: what it has printed.
  unfoldable pub main : Result Failure Bytes
  main = (do
    container ← map_err no_resources (K.discover_container K.environ)
    machine ← map_err no_machine (K.discover_machine K.environ)
    result ← map_err no_alignment (K.check K.environ container machine)
    map_err no_response (K.encode result))

  -- What is printed is the encoding of a check that succeeded, of the container and the machine as
  -- they were found in one and the same environment.
  main_checked :
      (out : Bytes)
      → main ≡ ok out
      → (c : K.Container) × (m : K.Machine) × (r : K.Alignment) × (K.discover_container K.environ
          ≡ ok c)
        × (K.discover_machine K.environ ≡ ok m)
        × (K.check K.environ c m ≡ ok r)
        × (K.encode r ≡ ok out)
  unfolding main
  main_checked out h =
      let (c, e, h1) = bind_ok (map_err no_resources (K.discover_container K.environ)) _ out h in
      let (m, f, h2) = bind_ok (map_err no_machine (K.discover_machine K.environ)) _ out h1 in
      let (r, g, h3) = bind_ok (map_err no_alignment (K.check K.environ c m)) _ out h2 in
      (
        c,
        m,
        r,
        map_err_ok no_resources _ c e,
        map_err_ok no_machine _ m f,
        map_err_ok no_alignment _ r g,
        map_err_ok no_response _ out h3,
      )

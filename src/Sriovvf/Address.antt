-- ===== src/Sriovvf/Address.antt =====
-- `isPCIAddress`: `dddd:dd:dd.d` in hexadecimal digits.
use dra_driver_integration_e.Base.{
  ℕ, ◌≡◌, refl, sym, ◌≢◌, ◌↔◌, Bool, true, false, not, ◌&&◌, ◌||◌, List, [], ◌∷◌, ◌++◌, arith, leb,
  ◌==◌, if◌then◌else◌, Holds, length, All, All-append, All-imp, Bytes,
}
use dra_driver_integration_e.Base.FilePath.{split, Lacks, split-append, split-Lacks, rejoin-split}

-- A byte of a rune above 127 is none of these, so that bytes can stand for the runes.
abbrev pub is_hex : ℕ → Bool
is_hex ch =
    (leb b'0' ch && leb ch b'9') || (leb b'a' ch && leb ch b'f') || (leb b'A' ch && leb ch b'F')

all_hex : Bytes → Bool
all_hex [] = true
all_hex (ch ∷ s) = let rest = all_hex s in if is_hex ch then rest else false

unfoldable pub is_fixed_hex : Bytes → ℕ → Bool
unfolding all_hex
is_fixed_hex s width = if not (length s == width) then false else all_hex s

-- The part behind the second colon.
is_device_function : List Bytes → Bool
is_device_function (device ∷ function ∷ []) = is_fixed_hex device 2 && is_fixed_hex function 1
is_device_function _ = false

three_parts : List Bytes → Bool
three_parts (domain ∷ bus ∷ rest ∷ []) =
    if not (is_fixed_hex domain 4) || not (is_fixed_hex bus 2)
    then false
    else is_device_function (split b'.' rest)
three_parts _ = false

unfoldable pub is_pci_address : Bytes → Bool
unfolding three_parts is_device_function
is_pci_address addr = three_parts (split b':' addr)

abbrev IsHex : ℕ → Type 0
IsHex ch = Holds (is_hex ch)

-- A field of hexadecimal digits, as many as its width.
abbrev pub IsField : ℕ → Bytes → Type 0
IsField width s = (length s ≡ width) × All IsHex s

all_hex_iff : (s : Bytes) → (all_hex s ≡ true) ↔ All IsHex s
unfolding all_hex
all_hex_iff [] = ground arith
all_hex_iff (ch ∷ s) = ground (arith, all_hex_iff s)

is_fixed_hex_iff : (s : Bytes) (width : ℕ) → (is_fixed_hex s width ≡ true) ↔ IsField width s
unfolding is_fixed_hex
is_fixed_hex_iff s width = ground (arith, all_hex_iff s)

-- The four fields with the two colons and the dot between them.
pub record IsAddress (addr : Bytes) : Type 0 where
  pub domain : Bytes
  pub bus : Bytes
  pub device : Bytes
  pub function : Bytes
  pub is : addr ≡ domain ++ (b':' ∷ (bus ++ (b':' ∷ (device ++ (b'.' ∷ function)))))
  pub domain_field : IsField 4 domain
  pub bus_field : IsField 2 bus
  pub device_field : IsField 2 device
  pub function_field : IsField 1 function

IsHex-Lacks : (c : ℕ) → is_hex c ≡ false → (s : Bytes) → All IsHex s → Lacks c s
IsHex-Lacks c h s hs = All-imp IsHex (λ d. d ≢ c) (λ d is. ground arith) s hs

device_function_ok :
    (device function : Bytes)
    → IsField 2 device
    → IsField 1 function
    → is_device_function (split b'.' (device ++ (b'.' ∷ function))) ≡ true
unfolding is_device_function
device_function_ok device function (n, hd) (m, hf) =
    rw
      (
        split-append b'.' device function,
        split-Lacks b'.' device (IsHex-Lacks b'.' (ground arith) device hd),
        split-Lacks b'.' function (IsHex-Lacks b'.' (ground arith) function hf),
      )
      (ground (arith, is_fixed_hex_iff device 2, is_fixed_hex_iff function 1))

is_pci_address_complete : (addr : Bytes) → IsAddress addr → is_pci_address addr ≡ true
unfolding is_pci_address
is_pci_address_complete addr a =
    let (n, domain) = a.domain_field in
    let (m, bus) = a.bus_field in
    let rest = a.device ++ (b'.' ∷ a.function) in
    let rest_lacks : Lacks b':' rest =
      All-append (λ d. d ≢ b':') a.device (b'.' ∷ a.function)
        (IsHex-Lacks b':' (ground arith) a.device a.device_field.1)
        (omega arith, IsHex-Lacks b':' (ground arith) a.function a.function_field.1) in
    rw
      (
        a.is,
        split-append b':' a.domain (a.bus ++ (b':' ∷ rest)),
        split-append b':' a.bus rest,
        split-Lacks b':' a.domain (IsHex-Lacks b':' (ground arith) a.domain domain),
        split-Lacks b':' a.bus (IsHex-Lacks b':' (ground arith) a.bus bus),
        split-Lacks b':' rest rest_lacks,
      )
      (ground (
        arith,
        is_fixed_hex_iff a.domain 4,
        is_fixed_hex_iff a.bus 2,
        device_function_ok a.device a.function a.device_field a.function_field,
      ))

-- What `is_device_function` and `three_parts` accept.
device_function_sound :
    (rest : Bytes) (parts : List Bytes)
    → split b'.' rest ≡ parts
    → is_device_function parts ≡ true
    → (device : Bytes) × (function : Bytes) × (rest ≡ device ++ (b'.' ∷ function))
      × IsField 2 device
      × IsField 1 function
unfolding is_device_function
device_function_sound rest [] e h = absurd (ground arith)
device_function_sound rest (d ∷ []) e h = absurd (ground arith)
device_function_sound rest (d ∷ f ∷ g ∷ parts) e h = absurd (ground arith)
device_function_sound rest (d ∷ f ∷ []) e h = (
  d,
  f,
  rw e at (sym (rejoin-split b'.' rest)),
  (is_fixed_hex_iff d 2).0 (ground arith),
  (is_fixed_hex_iff f 1).0 (ground arith),
)

three_parts_sound :
    (addr : Bytes) (parts : List Bytes)
    → split b':' addr ≡ parts
    → three_parts parts ≡ true
    → IsAddress addr
unfolding three_parts
three_parts_sound addr [] e h = absurd (ground arith)
three_parts_sound addr (a ∷ []) e h = absurd (ground arith)
three_parts_sound addr (a ∷ b ∷ []) e h = absurd (ground arith)
three_parts_sound addr (a ∷ b ∷ c ∷ d ∷ parts) e h = absurd (ground arith)
three_parts_sound addr (a ∷ b ∷ c ∷ []) e h =
    let (device, function, is, df, ff) =
      device_function_sound c (split b'.' c) refl (ground arith) in
    let whole : addr ≡ a ++ (b':' ∷ (b ++ (b':' ∷ c))) = rw e at (sym (rejoin-split b':' addr)) in
    record {
      domain = a;
      bus = b;
      device = device;
      function = function;
      is = rw is at whole;
      domain_field = (is_fixed_hex_iff a 4).0 (ground arith);
      bus_field = (is_fixed_hex_iff b 2).0 (ground arith);
      device_field = df;
      function_field = ff;
    }

-- The test accepts an address of the form `dddd:dd:dd.d`, of hexadecimal digits in either case, and
-- refuses every other text.
pub is_pci_address_iff : (addr : Bytes) → (is_pci_address addr ≡ true) ↔ IsAddress addr
unfolding is_pci_address
is_pci_address_iff addr =
    (three_parts_sound addr (split b':' addr) refl, is_pci_address_complete addr)

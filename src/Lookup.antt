-- ===== src/Lookup.antt =====
-- src/lookup.c: the tool that asks the name server for its servers and prints them. The texts of the
-- command line are read by the C library's `strtoul`, a parameter that gives `none` where the
-- text is no number or is too large. `printf` is not modelled: a `Row` holds what a line shows.
pub mod Listing
use Prim.Native.Nat.{bit_and}
use Prim.Native.String.{String}
use qrtr.Base.{
  ℕ, ◌/◌, ◌%◌, ◌^◌, Bool, true, false, not, ◌&&◌, ◌||◌, Option, none, some, List, [], ◌∷◌, ltb,
  ◌==◌, if◌then◌else◌, u32_mod,
}
use qrtr.Packet.{
  Host, CtrlPkt, zero_pkt, cpu_to_le32, le32_to_cpu, type_new_server, type_new_lookup,
}

abbrev pub diag_service : ℕ
diag_service = 4097

pub record CommonName : Type 0 where
  pub service : ℕ
  pub ifilter : ℕ
  pub name : String

abbrev pub common : ℕ → ℕ → String → CommonName
common service ifilter name = record { service = service; ifilter = ifilter; name = name }

abbrev pub common_names : List CommonName
common_names =
    common 0 0 "Control service"
    ∷ common 1 0 "Wireless Data Service"
    ∷ common 2 0 "Device Management Service"
    ∷ common 3 0 "Network Access Service"
    ∷ common 4 0 "Quality Of Service service"
    ∷ common 5 0 "Wireless Messaging Service"
    ∷ common 6 0 "Position Determination Service"
    ∷ common 7 0 "Authentication service"
    ∷ common 8 0 "AT service"
    ∷ common 9 0 "Voice service"
    ∷ common 10 0 "Card Application Toolkit service (v2)"
    ∷ common 11 0 "User Identity Module service"
    ∷ common 12 0 "Phonebook Management service"
    ∷ common 13 0 "QCHAT service"
    ∷ common 14 0 "Remote file system service"
    ∷ common 15 0 "Test service"
    ∷ common 16 0 "Location service (~ PDS v2)"
    ∷ common 17 0 "Specific absorption rate service"
    ∷ common 18 0 "IMS settings service"
    ∷ common 19 0 "Analog to digital converter driver service"
    ∷ common 20 0 "Core sound driver service"
    ∷ common 21 0 "Modem embedded file system service"
    ∷ common 22 0 "Time service"
    ∷ common 23 0 "Thermal sensors service"
    ∷ common 24 0 "Thermal mitigation device service"
    ∷ common 25 0 "Service access proxy service"
    ∷ common 26 0 "Wireless data administrative service"
    ∷ common 27 0 "TSYNC control service"
    ∷ common 28 0 "Remote file system access service"
    ∷ common 29 0 "Circuit switched videotelephony service"
    ∷ common 30 0 "Qualcomm mobile access point service"
    ∷ common 31 0 "IMS presence service"
    ∷ common 32 0 "IMS videotelephony service"
    ∷ common 33 0 "IMS application service"
    ∷ common 34 0 "Coexistence service"
    ∷ common 36 0 "Persistent device configuration service"
    ∷ common 38 0 "Simultaneous transmit service"
    ∷ common 39 0 "Bearer independent transport service"
    ∷ common 40 0 "IMS RTP service"
    ∷ common 41 0 "RF radiated performance enhancement service"
    ∷ common 42 0 "Data system determination service"
    ∷ common 43 0 "Subsystem control service"
    ∷ common 47 0 "Data Port Mapper service"
    ∷ common 48 0 "QMI DFS service"
    ∷ common 49 0 "IPA control service"
    ∷ common 50 0 "UIMRMT service"
    ∷ common 51 0 "CoreSight remote tracing service"
    ∷ common 52 0 "Dynamic Heap Memory Sharing"
    ∷ common 55 0 "QMI-SLIM service"
    ∷ common 56 0 "LOWI (Location) service"
    ∷ common 57 0 "WLPS service"
    ∷ common 64 0 "Service registry locator service"
    ∷ common 66 0 "Service registry notification service"
    ∷ common 69 0 "ATH10k WLAN firmware service"
    ∷ common 70 0 "LTE service"
    ∷ common 71 0 "UIMHTTP service"
    ∷ common 75 0 "QDMA service"
    ∷ common 76 0 "SSGCCS service"
    ∷ common 77 0 "IMS QMI Priv service"
    ∷ common 224 0 "Card Application Toolkit service (v1)"
    ∷ common 225 0 "Remote Management Service"
    ∷ common 226 0 "Open Mobile Alliance device management service"
    ∷ common 231 0 "Vendor-specific service"
    ∷ common 235 0 "Modem service"
    ∷ common 256 0 "Sensor Manager service"
    ∷ common 271 0 "Sensor Registry service"
    ∷ common 312 0 "QBT1000 Ultrasonic Fingerprint Sensor service"
    ∷ common 400 0 "Snapdragon Sensor Core service"
    ∷ common 769 0 "SLIMbus control service"
    ∷ common 770 0 "IMS data service"
    ∷ common 771 0 "Peripheral Access Control Manager service"
    ∷ common 4096 0 "TFTP"
    ∷ common diag_service 0 "DIAG service"
    ∷ []

abbrev pub diag_instance_base_str : ℕ → String
diag_instance_base_str instance_base =
    if instance_base == 0
    then "MODEM"
    else if instance_base == 1
    then "LPASS"
    else if instance_base == 2
    then "WCNSS"
    else if instance_base == 3
    then "SENSORS"
    else if instance_base == 4
    then "CDSP"
    else if instance_base == 5
    then "WDSP"
    else "<unk>"

abbrev pub diag_instance_str : ℕ → String
diag_instance_str inst =
    if inst == 0
    then "CNTL"
    else if inst == 1
    then "CMD"
    else if inst == 2
    then "DATA"
    else if inst == 3
    then "DCI_CMD"
    else if inst == 4
    then "DCI"
    else "<unk>"

-- The two parts of the text, which stand around a colon.
abbrev pub get_diag_instance_info : ℕ → String × String
get_diag_instance_info inst =
    (diag_instance_base_str (inst / 2 ^ 6), diag_instance_str (bit_and inst 0x3f))

-- The number and `*rcp`, which is true where an error was seen.
unfoldable pub read_num_le : Host → (String → Option ℕ) → String → Bool → ℕ × Bool
read_num_le host strtoul str true = (0, true)
read_num_le host strtoul str false = elim (strtoul str) [
  | none ↦ (cpu_to_le32 host 0, true)
  | some n ↦ (cpu_to_le32 host (n % u32_mod), false)
]

-- The packet that `main` sends for its arguments, or `none` for the usage text.
unfoldable pub request : Host → (String → Option ℕ) → List String → Option CtrlPkt
request host strtoul [] = some (record zero_pkt { cmd = cpu_to_le32 host type_new_lookup })
request host strtoul (service ∷ []) =
    let (word0, failed) = read_num_le host strtoul service false in
    if failed
    then none
    else some (record zero_pkt { cmd = cpu_to_le32 host type_new_lookup; word0 = word0 })
request host strtoul (service ∷ inst ∷ []) =
    let (word1, wrong) = read_num_le host strtoul inst false in
    let (word0, failed) = read_num_le host strtoul service wrong in
    if failed
    then none
    else some
        (record zero_pkt { cmd = cpu_to_le32 host type_new_lookup; word0 = word0; word1 = word1 })
request host strtoul (service ∷ inst ∷ more ∷ rest) = none

-- The loop over `common_names`: the last entry that fits gives the name.
unfoldable pub name_loop : ℕ → ℕ → List CommonName → String → String
name_loop service inst [] name = name
name_loop service inst (c ∷ cs) name = name_loop service inst cs (
    if not (service == c.service)
    then name
    else if not (inst == 0) && not (bit_and inst c.ifilter == c.ifilter)
    then name
    else c.name)

abbrev pub service_name : ℕ → ℕ → String
service_name service inst = name_loop service inst common_names "<unknown>"

-- A line of output; a DIAG line has no version, and two parts of text.
pub record Row : Type 0 where
  pub service : ℕ
  pub version : Option ℕ
  pub inst : ℕ
  pub node : ℕ
  pub port : ℕ
  pub name : String
  pub diag : Option (String × String)

-- The line for the words of a packet.
unfoldable pub row : ℕ → ℕ → ℕ → ℕ → Row
row service word node port =
    let name = service_name service (word / 2 ^ 8) in
    if service == diag_service
    then record {
      service = service;
      version = none;
      inst = word;
      node = node;
      port = port;
      name = name;
      diag = some (get_diag_instance_info word);
    }
    else record {
      service = service;
      version = some (bit_and word 0xff);
      inst = word / 2 ^ 8;
      node = node;
      port = port;
      name = name;
      diag = none;
    }

abbrev pub is_end : CtrlPkt → Bool
is_end pkt = (pkt.word0 == 0) && (pkt.word1 == 0) && (pkt.word2 == 0) && (pkt.word3 == 0)

-- The loop of `main` over what `recv` returns, a length that is not 0 and a packet, until it returns
-- none: the lines that are printed.
unfoldable pub list_rows : Host → List (ℕ × CtrlPkt) → List Row
list_rows host [] = []
list_rows host ((len, pkt) ∷ rest) =
    let rows = list_rows host rest in
    if ltb len 20 || not (le32_to_cpu host pkt.cmd == type_new_server)
    then rows
    else if is_end pkt
    then []
    else row (le32_to_cpu host pkt.word0) (le32_to_cpu host pkt.word1) (le32_to_cpu host pkt.word2)
        (le32_to_cpu host pkt.word3)
      ∷ rows

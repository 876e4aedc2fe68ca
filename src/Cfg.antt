-- ===== src/Cfg.antt =====
-- src/cfg.c: the tool that gives this node the number of its argument. A number is read as in `main` of
-- src/ns.c.
pub mod Argument
use qrtr.Base.{ℕ, ◌%◌, Bool, true, false, not, ◌||◌, List, [], ◌∷◌, leb, if◌then◌else◌, u32_mod}
use qrtr.System.{Run, left, usage, Text, Headers, Kernel}
use qrtr.Addr.{qrtr_set_address}

-- `text[0] == '\0'`
abbrev pub is_empty : Text → Bool
is_empty [] = true
is_empty (c ∷ cs) = false

abbrev pub uint_max : ℕ
uint_max = 0xffffffff

-- The check of an argument: the text that is tested for being empty, and what `strtoul` made of the
-- argument, its number and the text at `*ep`.
abbrev pub is_wrong : Text → ℕ × Text → Bool
is_wrong tested read = is_empty tested || not (is_empty read.1) || leb uint_max read.0

-- `main`, for the program's name and its arguments.
unfoldable pub main : {K : Type 0} → Headers → Kernel K → (Text → ℕ × Text) → List Text → K → Run K
main h kernel strtoul [] k = left usage
main h kernel strtoul (name ∷ []) k = left usage
main h kernel strtoul (name ∷ arg ∷ []) k =
    let set = qrtr_set_address h kernel ((strtoul arg).0 % u32_mod) k in
    if is_wrong arg (strtoul arg) then left usage else set
main h kernel strtoul (name ∷ arg ∷ more ∷ rest) k = left usage
